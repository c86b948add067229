-- ===== src/Resilience/Circuit.antt =====
-- src/acquire_intel/resilience/circuit.py: the per-domain circuit breaker. The injected clock is the
-- argument `now`, in ticks; a method that mutates the breaker returns the new one.
pub mod Laws
pub mod Probe
pub mod Registry
mod Tests
use acquire_intel.Prelude.{
  ℕ, ◌+◌, Bool, true, false, Option, none, some, leb, if◌then◌else◌, Text, Dict, get, put,
}

pub data CircuitState : Type 0 where
  closed opened half_open : CircuitState

pub record CircuitBreaker : Type 0 where
  pub failure_threshold : ℕ
  pub cooldown_seconds : ℕ
  pub state : CircuitState
  pub failures : ℕ
  pub opened_at : Option ℕ

-- The body of `allow` in the open state; `none` is the failed assertion on `_opened_at`.
allow_opened : ℕ → CircuitBreaker → Option ℕ → Option (Bool × CircuitBreaker)
allow_opened now b none = none
allow_opened now b (some t) =
    if leb (t + b.cooldown_seconds) now
    then some (true, record b { state = half_open })
    else some (false, b)

allow_in : CircuitState → ℕ → CircuitBreaker → Option (Bool × CircuitBreaker)
unfolding allow_opened
allow_in opened now b = allow_opened now b b.opened_at
allow_in closed now b = some (true, b)
allow_in half_open now b = some (true, b)

unfoldable pub allow : ℕ → CircuitBreaker → Option (Bool × CircuitBreaker)
unfolding allow_in
allow now b = allow_in b.state now b

unfoldable pub record_success : CircuitBreaker → CircuitBreaker
record_success b = record b { state = closed; failures = 0; opened_at = none }

unfoldable pub trip : ℕ → CircuitBreaker → CircuitBreaker
trip now b = record b { state = opened; opened_at = some now; failures = 0 }

count_failure : ℕ → CircuitBreaker → CircuitBreaker
unfolding trip
count_failure now b = if leb b.failure_threshold b.failures then trip now b else b

failure_in : CircuitState → ℕ → CircuitBreaker → CircuitBreaker
unfolding count_failure
failure_in half_open now b = trip now b
failure_in _ now b = count_failure now (record b { failures = b.failures + 1 })

unfoldable pub record_failure : ℕ → CircuitBreaker → CircuitBreaker
unfolding failure_in
record_failure now b = failure_in b.state now b

-- `CircuitBreakerRegistry`: one shared policy, and the breakers made so far.
pub record CircuitBreakerRegistry : Type 0 where
  pub failure_threshold : ℕ
  pub cooldown_seconds : ℕ
  pub breakers : Dict CircuitBreaker

abbrev pub new_breaker : CircuitBreakerRegistry → CircuitBreaker
new_breaker r = record {
  failure_threshold = r.failure_threshold;
  cooldown_seconds = r.cooldown_seconds;
  state = closed;
  failures = 0;
  opened_at = none;
}

abbrev pub made_for :
    Text → CircuitBreakerRegistry → Option CircuitBreaker → CircuitBreaker × CircuitBreakerRegistry
made_for domain r (some b) = (b, r)
made_for domain r none =
    (new_breaker r, record r { breakers = put r.breakers domain (new_breaker r) })

-- The breaker is a shared object: who mutates it stores it back under its domain.
unfoldable pub for_domain : Text → CircuitBreakerRegistry → CircuitBreaker × CircuitBreakerRegistry
for_domain domain r = made_for domain r (get r.breakers domain)

abbrev pub store : Text → CircuitBreaker → CircuitBreakerRegistry → CircuitBreakerRegistry
store domain b r = record r { breakers = put r.breakers domain b }
