-- ===== src/Resilience/Middleware/Chain/ClearFetch.antt =====
-- What becomes of a whole `fetch` of the chain for a request whose host is not blocked: it reaches
-- the server, an `ok` response is delivered, and a rate limit is tried again.
use acquire_intel.Prelude.{
  ℕ, ◌+◌, ◌<◌, ◌≡◌, refl, sym, ap, subst, suc, ◌∙◌, true, false, Option, none, some, Text, arith,
}
use acquire_intel.Resilience.Backoff.{Random}
use acquire_intel.Resilience.Classifier.{ok, classify}
use acquire_intel.Resilience.Middleware.{
  Request, Response, Outcome, pass, counter, is_infra_request, domain,
}
use acquire_intel.Resilience.Middleware.BackoffRetry.{BackoffRetry, is_retryable}
use acquire_intel.Resilience.Middleware.CircuitBreaker
use acquire_intel.Resilience.Middleware.CircuitBreaker.{CircuitMiddleware, Verdict, go_on, verdict}
use acquire_intel.Resilience.Middleware.Rotation
use acquire_intel.Resilience.Middleware.Rotation.{Rotation, stamp_proxy, respond}
use acquire_intel.Resilience.Middleware.Chain.{
  Fetched, delivered, World, Layer, process_response, fetch, download, settle, admitted,
  after_backoff,
}
use acquire_intel.Resilience.Middleware.Chain.Clear.{
  IsClosed, closed_admits, retryable_retries, ok_passes,
}

pub stamp_proxy-kept :
    (proxy : Option Text) (p : Request)
    → (is_infra_request (stamp_proxy proxy p) ≡ is_infra_request p)
      × ((stamp_proxy proxy p).url ≡ p.url)
      × ((stamp_proxy proxy p).backoff_retries ≡ p.backoff_retries)
stamp_proxy-kept none p = (refl, refl, refl)
stamp_proxy-kept (some proxy) p = (refl, refl, refl)

stamped :
    (p : Request) (m : Rotation)
    → is_infra_request p ≡ false
    → m.escalated ≡ false
    → Rotation.process_request p m ≡ stamp_proxy m.proxy p
unfolding Rotation.process_request
stamped p m infra plain = simp (infra, plain) refl

-- A layer that has not been blocked at this host.
pub record IsClear (random : Random) (float_of : Text → Option ℕ) (host : Text)
    (l : Layer random float_of) : Type 0 where
  pub closed_at : IsClosed host l.circuit.registry
  pub plain : l.rotation.escalated ≡ false

module _ (random : Random) (float_of : Text → Option ℕ) (world : World) where
  open world use {State, respond, clock, wait}

  -- A request gets as far as the server, with the proxy stamped on it.
  reaches :
      (fuel : ℕ) (l : Layer random float_of) (s : State) (p : Request)
      → is_infra_request p ≡ false
      → IsClear random float_of (domain p.url) l
      → (m : CircuitMiddleware) × IsClosed (domain p.url) m.registry
        × (fetch random float_of world (suc fuel) l s p
            ≡ download random float_of world
                (fetch random float_of world fuel)
                (record l { circuit = m })
                s
                (stamp_proxy l.rotation.proxy p))
  unfolding fetch
  reaches fuel l s p infra c =
      let q = stamp_proxy l.rotation.proxy p in
      let (same_infra, same_url, _) = stamp_proxy-kept l.rotation.proxy p in
      let (m, e, k) =
        closed_admits (clock s) q l.circuit (same_infra ∙ infra) (
          subst (λ (t : Text). IsClosed (domain t) l.circuit.registry) (sym same_url)
            c.closed_at) in
      (
        m,
        subst (λ (t : Text). IsClosed (domain t) m.registry) same_url k,
        ap
              (λ (t : Request).
                admitted random float_of world (fetch random float_of world fuel) l s t
                  (CircuitBreaker.process_request (clock s) t l.circuit))
              (stamped p l.rotation infra c.plain)
            ∙ ap (admitted random float_of world (fetch random float_of world fuel) l s q) e,
      )

  settle_pass :
      (again : Layer random float_of → State → Request → Fetched × Layer random float_of × State)
      (s : State) (r : Response) (o : Outcome × Layer random float_of)
      → o.0 ≡ pass r
      → (settle random float_of world again s o).0 ≡ delivered r
  settle_pass again s r (x, l) e = rw e refl

  -- A clear request that the server answers with an `ok` response is delivered.
  pub clear_delivered :
      (fuel : ℕ) (l : Layer random float_of) (s : State) (p : Request)
      → is_infra_request p ≡ false
      → IsClear random float_of (domain p.url) l
      → (r : Response) → (respond s (stamp_proxy l.rotation.proxy p)).0 ≡ r
      → is_retryable r.status ≡ false
      → classify r.status r.body ≡ ok
      → (fetch random float_of world (suc fuel) l s p).0 ≡ delivered r
  unfolding download
  clear_delivered fuel l s p infra c r e once k =
      let q = stamp_proxy l.rotation.proxy p in
      let (m, _, step) = reaches fuel l s p infra c in
      let s' = (respond s q).1 in
      let passes : (process_response random float_of (clock s') q (respond s q).0
            (record l { circuit = m })).0
          ≡ pass (respond s q).0 =
        ok_passes random float_of (clock s') q (respond s q).0 (record l { circuit = m })
          ((stamp_proxy-kept l.rotation.proxy p).0 ∙ infra)
          (ap (λ (t : Response). is_retryable t.status) e ∙ once)
          (ap (λ (t : Response). classify t.status t.body) e ∙ k) in
      ap (λ (t : Fetched × Layer random float_of × State). t.0) step
      ∙ settle_pass (fetch random float_of world fuel) s' (respond s q).0 _ passes
      ∙ ap delivered e

  -- A clear request that is rate-limited is sent again after a wait, with one retry more to its
  -- count, and the layer stays clear.
  pub limited_again :
      (fuel : ℕ) (l : Layer random float_of) (s : State) (p : Request)
      → is_infra_request p ≡ false
      → IsClear random float_of (domain p.url) l
      → is_retryable (respond s (stamp_proxy l.rotation.proxy p)).0.status ≡ true
      → counter p.backoff_retries < l.backoff.policy.max_retries
      → counter p.backoff_retries < 1024
      → let q = stamp_proxy l.rotation.proxy p in
        (delay : ℕ) × (l' : Layer random float_of) × (fetch random float_of world (suc fuel) l s p
          ≡ fetch random float_of world fuel l' (wait delay (respond s q).1) (record q {
            dont_filter = true;
            backoff_retries = some (counter q.backoff_retries + 1);
          }))
        × IsClear random float_of (domain p.url) l'
        × (l'.rotation ≡ l.rotation)
        × (l'.backoff.policy ≡ l.backoff.policy)
  unfolding download process_response
  limited_again fuel l s p infra c again left few =
      let q = stamp_proxy l.rotation.proxy p in
      let (same_infra, _, same_count) = stamp_proxy-kept l.rotation.proxy p in
      let (m, k, step) = reaches fuel l s p infra c in
      let (delay, b, retried, same_policy) =
        retryable_retries random float_of q (respond s q).0 l.backoff (same_infra ∙ infra) again
          (omega (arith, ap counter same_count, left))
          (omega (arith, ap counter same_count, few)) in
      (
        delay,
        record l { circuit = m; backoff = b },
        step
            ∙ ap
                (λ (o : Outcome × BackoffRetry random float_of).
                  settle random float_of world (fetch random float_of world fuel) (respond s q).1 (
                    after_backoff random float_of (clock (respond s q).1) q
                      (record l { circuit = m }) o))
                retried,
        record { closed_at = k; plain = c.plain },
        refl,
        same_policy,
      )
