-- ===== src/Resilience/Middleware/Chain/Fetch.antt =====
-- A fetch comes to an end within the retry budgets, and only `ok` responses reach a spider.
use acquire_intel.Prelude.{
  ℕ, zero, suc, ◌+◌, ◌-◌, ◌≤◌, ◌<◌, ◌≡◌, refl, ◌∙◌, ap, ◌⊎◌, inl, inr, true, false, Option, Text,
  arith,
}
use acquire_intel.Resilience.Backoff.{BackoffPolicy, Random}
use acquire_intel.Resilience.Classifier.{ok, classify}
use acquire_intel.Resilience.Middleware.{
  Request, Response, Outcome, pass, retry, ignore, counter, is_infra_request,
}
use acquire_intel.Resilience.Middleware.CircuitBreaker
use acquire_intel.Resilience.Middleware.CircuitBreaker.{
  CircuitMiddleware, Verdict, go_on, refused, asserted,
}
use acquire_intel.Resilience.Middleware.BanDetection
use acquire_intel.Resilience.Middleware.Rotation
use acquire_intel.Resilience.Middleware.Rotation.{Rotation, stamp_identity}
use acquire_intel.Resilience.Middleware.Chain.{
  Fetched, delivered, dropped, crashed, out_of_fuel, World, Layer, process_response, fetch, settle,
  download, admitted, after_backoff, after_rotation, at_gate,
}
use acquire_intel.Resilience.Middleware.Chain.BackoffStage.{BackoffAnswer, backoff_answers}
use acquire_intel.Resilience.Middleware.Chain.CircuitStage.{
  RegistryValid, circuit_response-RegistryValid, CircuitAdmits, circuit_admits,
}
use acquire_intel.Resilience.Middleware.Chain.RotationStage.{
  RotationValid, RotationAnswer, rotation_answers, gate_answers,
}

-- The retries that a request has left.
abbrev pub left : ℕ → ℕ → Request → ℕ
left max_retries max_attempts p =
    (max_retries - counter p.backoff_retries) + (max_attempts - counter p.rotation_attempts)

module _ (random : Random) (float_of : Text → Option ℕ) where
  pub record LayerValid (l : Layer random float_of) : Type 0 where
    pub registry : RegistryValid l.circuit.registry
    pub rotation : RotationValid l.rotation
    pub retries : l.backoff.policy.max_retries ≤ 1024

  abbrev pub budget : Layer random float_of → Request → ℕ
  budget l p = left l.backoff.policy.max_retries l.rotation.max_attempts p

  retries_of : {a b : BackoffPolicy} → a ≡ b → a.max_retries ≡ b.max_retries
  retries_of e = ap (λ (t : BackoffPolicy). t.max_retries) e

  -- What a pass of a response through the chain may come to.
  data Passed (p : Request) (r : Response) (l : Layer random float_of)
      (o : Outcome × Layer random float_of) : Type 0 where
    delivers :
        (l' : Layer random float_of)
        → o ≡ (pass r, l')
        → (is_infra_request p ≡ true) ⊎ (classify r.status r.body ≡ ok)
        → Passed p r l o
    retries :
        (delay : ℕ) (q : Request) (l' : Layer random float_of)
        → o ≡ (retry delay q, l')
        → LayerValid l'
        → budget l' q < budget l p
        → q.dont_obey_robotstxt ≡ p.dont_obey_robotstxt
        → Passed p r l o
    drops : (l' : Layer random float_of) → o ≡ (ignore, l') → Passed p r l o

  abbrev with_circuit : ℕ → Request → Response → Layer random float_of → Layer random float_of
  with_circuit now p r l = record l { circuit = CircuitBreaker.process_response now p r l.circuit }

  gate-Passed :
      (now : ℕ) (p : Request) (r : Response) (l0 l : Layer random float_of)
      → Passed p r l0 (at_gate random float_of now p r l)
  gate-Passed now p r l0 l = elim (gate_answers now p r l.gate) [
    | inl (e, why) ↦
        delivers (record l { gate = (BanDetection.process_response now p r l.gate).1 }) (rw e) why
    | inr e ↦ drops (record l { gate = (BanDetection.process_response now p r l.gate).1 }) (rw e)
  ]

  rotation-Passed :
      (now : ℕ) (p : Request) (r : Response) (l0 l : Layer random float_of)
      → RegistryValid l.circuit.registry
      → l.backoff.policy.max_retries ≤ 1024
      → l.backoff.policy ≡ l0.backoff.policy
      → l.rotation.max_attempts ≡ l0.rotation.max_attempts
      → (o : Outcome × Rotation) → RotationAnswer p r l.rotation o
      → Passed p r l0 (after_rotation random float_of now p l o)
  rotation-Passed now p r l0 l w few same1 same2 o (RotationAnswer.passes m e _ v) =
      rw (e, after_rotation) (gate-Passed now p r l0 (record l { rotation = m }))
  rotation-Passed now p r l0 l w few same1 same2 o
        (RotationAnswer.retries q m e k v c b other infra) =
      rw (e, after_rotation)
        (retries 0 q (record l { rotation = m }) refl
          (record { registry = w; rotation = v; retries = few })
          (omega (arith, retries_of same1, ap counter c, ap counter other)) infra)

  chain-Passed :
      (now : ℕ) (p : Request) (r : Response) (l : Layer random float_of)
      → LayerValid l
      → Passed p r l (process_response random float_of now p r l)
  unfolding process_response
  chain-Passed now p r l v = elim (backoff_answers random float_of p r l.backoff v.retries) [
    | BackoffAnswer.passes m e same ↦
        rw (e, after_backoff)
          (rotation-Passed now p r l (with_circuit now p r (record l { backoff = m }))
            (circuit_response-RegistryValid now p r l.circuit v.registry)
            (omega (arith, retries_of same, v.retries)) same refl _
            (rotation_answers now p r l.rotation v.rotation))
    | BackoffAnswer.retries delay q m e same b ↦
        rw (e, after_backoff)
          (retries delay q (record l { backoff = m }) refl
            (record {
              registry = v.registry;
              rotation = v.rotation;
              retries = omega (arith, retries_of same, v.retries);
            })
            (omega (arith, retries_of same, ap counter b.counted, ap counter b.other, b.below))
            b.infra)
  ]

-- What may become of a fetch that has fuel enough.
abbrev pub Ends : Fetched → Type 0
Ends (delivered r) = classify r.status r.body ≡ ok
Ends dropped = Unit
Ends crashed = ⊥
Ends out_of_fuel = ⊥

-- A stamp changes neither the counters of a request nor the mark of infrastructure.
record SameBudget (p q : Request) : Type 0 where
  backoff : q.backoff_retries ≡ p.backoff_retries
  rotation : q.rotation_attempts ≡ p.rotation_attempts
  infra : q.dont_obey_robotstxt ≡ p.dont_obey_robotstxt

stamp-SameBudget : (p : Request) (m : Rotation) → SameBudget p (Rotation.process_request p m)
unfolding Rotation.process_request stamp_identity
stamp-SameBudget p m = ground arith

module _ (random : Random) (float_of : Text → Option ℕ) (world : World) where
  open world use {State, respond, clock, wait}

  settle-Ends :
      (again : Layer random float_of → State → Request → Fetched × Layer random float_of × State)
      (fuel : ℕ) (s : State) (p : Request) (r : Response) (l : Layer random float_of)
      → ((l' : Layer random float_of) (s' : State) (q : Request)
          → LayerValid random float_of l'
          → is_infra_request q ≡ false
          → budget random float_of l' q < fuel
          → Ends (again l' s' q).0)
      → is_infra_request p ≡ false
      → budget random float_of l p ≤ fuel
      → (o : Outcome × Layer random float_of) → Passed random float_of p r l o
      → Ends (settle random float_of world again s o).0
  settle-Ends again fuel s p r l next infra h o (Passed.delivers l' e why) =
      rw (e, settle) (elim why [ inl i ↦ cc | inr k ↦ k ])
  settle-Ends again fuel s p r l next infra h o (Passed.retries delay q l' e v fewer same) =
      rw (e, settle) (next l' (wait delay s) q v (same ∙ infra) (omega arith))
  settle-Ends again fuel s p r l next infra h o (Passed.drops l' e) = rw (e, settle) tt

  admitted-Ends :
      (again : Layer random float_of → State → Request → Fetched × Layer random float_of × State)
      (l : Layer random float_of) (s : State) (p : Request)
      → ((c : CircuitMiddleware)
          → RegistryValid c.registry
          → Ends (download random float_of world again (record l { circuit = c }) s p).0)
      → (o : Verdict × CircuitMiddleware) → CircuitAdmits o
      → Ends (admitted random float_of world again l s p o).0
  admitted-Ends again l s p next (go_on, c) a = next c a.valid
  admitted-Ends again l s p next (refused, c) a = tt
  admitted-Ends again l s p next (asserted, c) a = a.sure refl

  -- From a valid state, in which backoff has no more than 1024 retries, and with more fuel than the
  -- request has retries left, a fetch of a request
  -- that is not one of infrastructure always comes to an end: it raises no exception but
  -- IgnoreRequest, and a response that it hands to the spider is one that the classifier labels
  -- ok.
  pub fetch-Ends :
      (fuel : ℕ) (l : Layer random float_of) (s : State) (p : Request)
      → LayerValid random float_of l
      → is_infra_request p ≡ false
      → budget random float_of l p < fuel
      → Ends (fetch random float_of world fuel l s p).0
  unfolding fetch download
  fetch-Ends zero l s p v infra h = absurd (omega arith)
  fetch-Ends (suc fuel) l s p v infra h =
      let q = Rotation.process_request p l.rotation in
      let same = stamp-SameBudget p l.rotation in
      admitted-Ends (fetch random float_of world fuel) l s q
        (λ c w.
          let (r, s') = respond s q in
          settle-Ends (fetch random float_of world fuel) fuel s' q r (record l { circuit = c })
            (λ l' s'' q' v' i b. fetch-Ends fuel l' s'' q' v' i b) (same.infra ∙ infra)
            (omega (arith, ap counter same.backoff, ap counter same.rotation)) _
            (chain-Passed random float_of (clock s') q r (record l { circuit = c })
              (record { registry = w; rotation = v.rotation; retries = v.retries })))
        _ (circuit_admits (clock s) q l.circuit v.registry)
