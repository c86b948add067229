-- ===== src/Resilience/Middleware/Chain/Clear.antt =====
-- How the chain treats a request whose host is not blocked: a closed breaker lets it by, an `ok`
-- response goes through all four middlewares, and a rate limit is tried again while retries are left.
use acquire_intel.Prelude.{
  ℕ, ◌+◌, ◌<◌, ◌≡◌, refl, ap, true, false, Option, some, leb, Text, get-put_self, arith,
}
use acquire_intel.Resilience.Backoff.{Random}
use acquire_intel.Resilience.Backoff.Laws.{compute_delay-total}
use acquire_intel.Resilience.Circuit.{
  CircuitBreaker, CircuitBreakerRegistry, closed, for_domain, made_for, store, allow,
}
use acquire_intel.Resilience.Classifier.{ok, classify}
use acquire_intel.Resilience.Proxy.{record_success}
use acquire_intel.Resilience.Middleware.{
  Request, Response, Outcome, pass, retry, Stat, inc_value, counter, is_infra_request, domain,
}
use acquire_intel.Resilience.Middleware.BackoffRetry
use acquire_intel.Resilience.Middleware.BackoffRetry.{
  BackoffRetry, parse_retry_after, is_retryable, plan_retry,
}
use acquire_intel.Resilience.Middleware.CircuitBreaker
use acquire_intel.Resilience.Middleware.CircuitBreaker.{CircuitMiddleware, Verdict, go_on, verdict}
use acquire_intel.Resilience.Middleware.BanDetection
use acquire_intel.Resilience.Middleware.BanDetection.{BanGate}
use acquire_intel.Resilience.Middleware.Rotation
use acquire_intel.Resilience.Middleware.Rotation.{Rotation, stamp_proxy, respond}
use acquire_intel.Resilience.Middleware.Chain.{
  Layer, process_response, after_backoff, after_rotation,
}

-- The breaker of a host, made on its first request, is closed.
abbrev pub IsClosed : Text → CircuitBreakerRegistry → Type 0
IsClosed host r = (for_domain host r).0.state ≡ closed

store-IsClosed :
    (host : Text) (b : CircuitBreaker) (r : CircuitBreakerRegistry)
    → b.state ≡ closed
    → IsClosed host (store host b r)
unfolding for_domain
store-IsClosed host b r e = rw (get-put_self r.breakers host b, made_for) e

-- A closed breaker lets a request by and stays closed.
pub closed_admits :
    (now : ℕ) (p : Request) (m : CircuitMiddleware)
    → is_infra_request p ≡ false
    → IsClosed (domain p.url) m.registry
    → (m' : CircuitMiddleware) × (CircuitBreaker.process_request now p m ≡ (go_on, m'))
      × IsClosed (domain p.url) m'.registry
unfolding CircuitBreaker.process_request allow
closed_admits now p m infra c =
    let host = domain p.url in
    let (b, r) = for_domain host m.registry in
    (record m { registry = store host b r }, rw (infra, c) refl, store-IsClosed host b r c)

rotation_passes :
    (now : ℕ) (p : Request) (r : Response) (m : Rotation)
    → is_infra_request p ≡ false
    → classify r.status r.body ≡ ok
    → Rotation.process_response now p r m
      ≡ (pass r, record m { proxies = record_success m.proxy m.proxies })
unfolding Rotation.process_response respond
rotation_passes now p r m infra c = simp (infra, c) refl

gate_passes :
    (now : ℕ) (p : Request) (r : Response) (g : BanGate)
    → is_infra_request p ≡ false
    → classify r.status r.body ≡ ok
    → BanDetection.process_response now p r g ≡ (pass r, g)
unfolding BanDetection.process_response
gate_passes now p r g infra c = simp (infra, c) refl

module _ (random : Random) (float_of : Text → Option ℕ) where
  below :
      (p : Request) (m : BackoffRetry random float_of)
      → counter p.backoff_retries < m.policy.max_retries
      → leb m.policy.max_retries (counter p.backoff_retries) ≡ false
  below p m left = ground arith

  -- A rate limit is tried again while retries are left.
  pub retryable_retries :
      (p : Request) (r : Response) (m : BackoffRetry random float_of)
      → is_infra_request p ≡ false
      → is_retryable r.status ≡ true
      → counter p.backoff_retries < m.policy.max_retries
      → counter p.backoff_retries < 1024
      → (delay : ℕ) × (m' : BackoffRetry random float_of) × (BackoffRetry.process_response random
            float_of p r m
          ≡ (
            retry delay (record p {
              dont_filter = true;
              backoff_retries = some (counter p.backoff_retries + 1);
            }),
            m',
          ))
        × (m'.policy ≡ m.policy)
  unfolding BackoffRetry.process_response
  retryable_retries p r m infra again left few =
      let (delay, rng, found, _, _, _) =
        compute_delay-total random (counter p.backoff_retries) m.policy
          (parse_retry_after random float_of r) m.rng few in
      (
        delay,
        record m { rng = rng; stats = inc_value Stat.backoff_retries m.stats },
        rw (infra, again, below p m left, found) refl,
        refl,
      )

  final_passes :
      (p : Request) (r : Response) (m : BackoffRetry random float_of)
      → is_retryable r.status ≡ false
      → is_infra_request p ≡ false
      → BackoffRetry.process_response random float_of p r m ≡ (pass r, m)
  unfolding BackoffRetry.process_response
  final_passes p r m once infra = simp (infra, once) refl

  -- An `ok` response goes through all four.
  pub ok_passes :
      (now : ℕ) (p : Request) (r : Response) (l : Layer random float_of)
      → is_infra_request p ≡ false
      → is_retryable r.status ≡ false
      → classify r.status r.body ≡ ok
      → (process_response random float_of now p r l).0 ≡ pass r
  unfolding process_response
  ok_passes now p r l infra once c =
      rw (final_passes p r l.backoff once infra, after_backoff)
        (rw (rotation_passes now p r l.rotation infra c, after_rotation)
          (ap (λ (t : Outcome × BanGate). t.0) (gate_passes now p r l.gate infra c)))
