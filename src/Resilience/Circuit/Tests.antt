-- ===== src/Resilience/Circuit/Tests.antt =====
-- Runs of the breaker, and the theorems at concrete breakers.
use acquire_intel.Prelude.{
  ℕ, ◌+◌, ◌<◌, List, ◌++◌, map, All, ◌≤◌, ◌≡◌, refl, ◌↔◌, none, some, true, false, [], ◌∷◌, arith,
}
use acquire_intel.Resilience.Circuit.{
  closed, opened, half_open, CircuitBreaker, CircuitBreakerRegistry, allow, record_success,
  record_failure,
}
use acquire_intel.Resilience.Circuit.Probe.{probing, probe_decides}
use acquire_intel.Resilience.Circuit.Laws.{
  IsValid, run, call, ask, failure, success, run-IsValid, asks, refuses_until_cooldown, fail_all,
  trips_at_threshold,
}

abbrev fresh : CircuitBreaker
fresh = record {
  failure_threshold = 3;
  cooldown_seconds = 60;
  state = closed;
  failures = 0;
  opened_at = none;
}

abbrev tripped : CircuitBreaker
tripped = record fresh { state = opened; opened_at = some 12 }

three_blocks : run (failure 10 ∷ failure 11 ∷ failure 12 ∷ ask 20 ∷ []) fresh ≡ some tripped
unfolding run call allow record_failure
three_blocks = refl

fresh-IsValid : IsValid fresh
fresh-IsValid = ground arith

run-IsValid_example :
    (b' : CircuitBreaker) × (run (failure 10 ∷ failure 11 ∷ success ∷ ask 20 ∷ []) fresh ≡ some b')
    × IsValid b'
run-IsValid_example =
    run-IsValid (failure 10 ∷ failure 11 ∷ success ∷ ask 20 ∷ []) fresh fresh-IsValid

refuses_until_cooldown_example :
    asks (12 ∷ 40 ∷ 71 ∷ 72 ∷ []) tripped
    ≡ some (false ∷ false ∷ false ∷ true ∷ [], record tripped { state = half_open })
refuses_until_cooldown_example =
    refuses_until_cooldown (12 ∷ 40 ∷ 71 ∷ []) 72 12 tripped refl refl (omega arith) (omega arith)

probe_decides_example :
    (asks (72 ∷ 72 ∷ 73 ∷ []) tripped ≡ some (true ∷ true ∷ true ∷ [], probing tripped))
    × ((nows : List ℕ)
        → asks nows (record_success (probing tripped))
          ≡ some (map (λ _. true) nows, record_success (probing tripped)))
    × ((now next : ℕ) (nows : List ℕ)
        → All (λ n. n < now + 60) nows
        → now + 60 ≤ next
        → asks (nows ++ next ∷ []) (record_failure now (probing tripped))
          ≡ some
              (map (λ _. false) nows ++ true ∷ [], probing (record_failure now (probing tripped))))
probe_decides_example = probe_decides tripped 12 72 (72 ∷ 73 ∷ []) refl refl (omega arith)

trips_at_threshold_example : ((fail_all (10 ∷ 11 ∷ 12 ∷ []) fresh).state ≡ opened) ↔ (3 ≤ 3)
trips_at_threshold_example = trips_at_threshold (10 ∷ 11 ∷ 12 ∷ []) fresh refl (omega arith)

abbrev shops : CircuitBreakerRegistry
shops = record { failure_threshold = 3; cooldown_seconds = 60; breakers = [] }
