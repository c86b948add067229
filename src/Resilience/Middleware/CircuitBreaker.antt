-- ===== src/Resilience/Middleware/CircuitBreaker.antt =====
-- `CircuitBreakerMiddleware`: refuse the requests to a domain whose breaker is open.
use acquire_intel.Prelude.{ℕ, Bool, true, false, ◌&&◌, not, Option, none, some, if◌then◌else◌, Text}
use acquire_intel.Resilience.Circuit.{
  CircuitState, opened, CircuitBreaker, CircuitBreakerRegistry, allow, record_success,
  record_failure, for_domain, store,
}
use acquire_intel.Resilience.Classifier.{
  Classification, ok, rate_limited, blocked, captcha, empty, classify,
}
use acquire_intel.Resilience.Middleware.{
  Request, Response, Stat, Stats, inc_value, is_infra_request, domain, is_circuit_failure,
}

pub record CircuitMiddleware : Type 0 where
  pub registry : CircuitBreakerRegistry
  pub stats : Stats

-- What `process_request` does: go on, IgnoreRequest, or the failed assertion of `allow`.
pub data Verdict : Type 0 where
  go_on refused asserted : Verdict

abbrev pub verdict :
    Text
    → CircuitBreakerRegistry
    → CircuitMiddleware
    → Option (Bool × CircuitBreaker)
    → Verdict × CircuitMiddleware
verdict host r m none = (asserted, record m { registry = r })
verdict host r m (some (true, b)) = (go_on, record m { registry = store host b r })
verdict host r m (some (false, b)) = (
  refused,
  record m { registry = store host b r; stats = inc_value Stat.circuit_skipped m.stats },
)

unfoldable pub process_request : ℕ → Request → CircuitMiddleware → Verdict × CircuitMiddleware
process_request now request m =
    let host = domain request.url in
    let (b, r) = for_domain host m.registry in
    if is_infra_request request then (go_on, m) else verdict host r m (allow now b)

abbrev pub is_opened : CircuitState → Bool
is_opened opened = true
is_opened _ = false

-- The breaker after a response with this label.
unfoldable pub observe : ℕ → Classification → CircuitBreaker → CircuitBreaker
observe now ok b = record_success b
observe now rate_limited b = b
observe now blocked b = record_failure now b
observe now captcha b = record_failure now b
observe now empty b = record_failure now b

unfoldable pub process_response : ℕ → Request → Response → CircuitMiddleware → CircuitMiddleware
unfolding observe
process_response now request response m =
    let host = domain request.url in
    let (b, r) = for_domain host m.registry in
    let c = classify response.status response.body in
    let b' = observe now c b in
    let tripped = is_circuit_failure c && (not (is_opened b.state) && is_opened b'.state) in
    if is_infra_request request then m else record m {
      registry = store host b' r;
      stats = if tripped then inc_value Stat.circuit_tripped m.stats else m.stats;
    }
