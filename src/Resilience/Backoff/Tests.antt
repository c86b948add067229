-- ===== src/Resilience/Backoff/Tests.antt =====
-- Delays of a generator that always draws the cap.
use acquire_intel.Prelude.{ℕ, ◌≤◌, ◌<◌, ◌≡◌, refl, none, some, arith, pos, negsuc}
use acquire_intel.Resilience.Backoff.{BackoffPolicy, Random, compute_delay}
use acquire_intel.Resilience.Backoff.Laws.{Honours, Exponential, compute_delay_bounds}

abbrev highest : Random
highest = record { Rng = Unit {0}; uniform = λ r cap. (cap, r); uniform_le = λ r cap. omega arith }

abbrev policy : BackoffPolicy
policy = record { base_delay = 500; max_delay = 30000; max_retries = 3 }

second_retry : compute_delay highest (pos 2) policy none tt ≡ some (2000, tt)
unfolding compute_delay
second_retry = refl

negative_attempt : compute_delay highest (negsuc 0) policy none tt ≡ none
unfolding compute_delay
negative_attempt = refl

compute_delay_bounds_example :
    (1 < 1024
      → (delay : ℕ) × (rng' : Unit {0}) × (compute_delay highest (pos 1) policy (some 7000) tt
          ≡ some (delay, rng'))
        × (delay ≤ 30000)
        × Honours 30000 (some 7000) delay
        × Exponential 500 1 (some 7000) delay)
    × (1024 ≤ 1 → compute_delay highest (pos 1) policy (some 7000) tt ≡ none)
compute_delay_bounds_example = compute_delay_bounds highest 1 policy (some 7000) tt
