-- ===== src/Resilience/Middleware/Chain/CircuitStage.antt =====
-- What the circuit-breaker middleware may answer, from a valid registry.
use acquire_intel.Prelude.{
  subst, ℕ, ◌≡◌, ◌≢◌, inl, inr, Bool, true, false, some, Text, eqb, get, get-put, arith, Bool-cases,
  Option-cases,
}
use acquire_intel.Resilience.Circuit.{
  CircuitBreaker, CircuitBreakerRegistry, record_success, record_failure, for_domain, store,
  made_for, new_breaker,
}
use acquire_intel.Resilience.Circuit.Laws as Circuits
use acquire_intel.Resilience.Classifier.{Classification, classify}
use acquire_intel.Resilience.Middleware.{Request, Response, is_infra_request, domain}
use acquire_intel.Resilience.Middleware.CircuitBreaker
use acquire_intel.Resilience.Middleware.CircuitBreaker.{
  CircuitMiddleware, Verdict, go_on, refused, asserted, verdict, observe,
}

-- Every breaker of the registry is valid.
pub record RegistryValid (r : CircuitBreakerRegistry) : Type 0 where
  pub at : (host : Text) (b : CircuitBreaker) → get r.breakers host ≡ some b → Circuits.IsValid b

new_breaker-IsValid : (r : CircuitBreakerRegistry) → Circuits.IsValid (new_breaker r)
new_breaker-IsValid r = ground arith

store-RegistryValid :
    (host : Text) (b : CircuitBreaker) (r : CircuitBreakerRegistry)
    → Circuits.IsValid b
    → RegistryValid r
    → RegistryValid (store host b r)
store-RegistryValid host b r v w = record {
  at = λ other c e. elim (Bool-cases (eqb host other)) [
    | inl same ↦ subst Circuits.IsValid (ground (arith, get-put r.breakers host other b)) v
    | inr ne ↦ w.at other c (ground (arith, get-put r.breakers host other b))
  ];
}

for_domain-RegistryValid :
    (host : Text) (r : CircuitBreakerRegistry)
    → RegistryValid r
    → Circuits.IsValid (for_domain host r).0 × RegistryValid (for_domain host r).1
unfolding for_domain
for_domain-RegistryValid host r w = elim (Option-cases (get r.breakers host)) [
  | inl e ↦
      rw (e, made_for)
        (
          new_breaker-IsValid r,
          store-RegistryValid host (new_breaker r) r (new_breaker-IsValid r) w,
        )
  | inr (b, e) ↦ rw (e, made_for) (w.at host b e, w)
]

observe-IsValid :
    (now : ℕ) (c : Classification) (b : CircuitBreaker)
    → Circuits.IsValid b
    → Circuits.IsValid (observe now c b)
unfolding observe record_success record_failure
observe-IsValid now c b v = ground arith

-- The breaker never keeps a response from the next middleware, and the registry stays valid.
pub circuit_response-RegistryValid :
    (now : ℕ) (p : Request) (r : Response) (m : CircuitMiddleware)
    → RegistryValid m.registry
    → RegistryValid (CircuitBreaker.process_response now p r m).registry
unfolding CircuitBreaker.process_response
circuit_response-RegistryValid now p r m w = elim (Bool-cases (is_infra_request p)) [
  | inl e ↦ rw e w
  | inr e ↦
      let host = domain p.url in
      let (v, w') = for_domain-RegistryValid host m.registry w in
      let c = classify r.status r.body in
      rw e (
        store-RegistryValid host (observe now c (for_domain host m.registry).0)
          (for_domain host m.registry).1 (observe-IsValid now c (for_domain host m.registry).0 v)
          w')
]

-- A request goes on or is refused; the assertion of `allow` never fails.
pub record CircuitAdmits (o : Verdict × CircuitMiddleware) : Type 0 where
  pub sure : o.0 ≢ asserted
  pub valid : RegistryValid o.1.registry

pub circuit_admits :
    (now : ℕ) (p : Request) (m : CircuitMiddleware)
    → RegistryValid m.registry
    → CircuitAdmits (CircuitBreaker.process_request now p m)
unfolding CircuitBreaker.process_request
circuit_admits now p m w = elim (Bool-cases (is_infra_request p)) [
  | inl e ↦ rw e (record { sure = λ f. cc; valid = w })
  | inr e ↦
      let host = domain p.url in
      let (v, w') = for_domain-RegistryValid host m.registry w in
      let ((answer, b), found, vb) = Circuits.allow_total now (for_domain host m.registry).0 v in
      rw (e, found) (decided host (for_domain host m.registry).1 m answer b vb w')
]
  where
    decided :
        (host : Text) (r : CircuitBreakerRegistry) (m : CircuitMiddleware) (answer : Bool)
        (b : CircuitBreaker)
        → Circuits.IsValid b
        → RegistryValid r
        → CircuitAdmits (verdict host r m (some (answer, b)))
    decided host r m true b v w = record {
      sure = λ f. cc;
      valid = store-RegistryValid host b r v w;
    }
    decided host r m false b v w = record {
      sure = λ f. cc;
      valid = store-RegistryValid host b r v w;
    }
