-- ===== src/Resilience/Backoff.antt =====
-- src/acquire_intel/resilience/backoff.py: the delay before a retry. Seconds are counted in ticks; the
-- random generator is a parameter with the documented range of `uniform(0, cap)`.
pub mod Laws
mod Tests
use acquire_intel.Prelude.{
  ℕ, ◌+◌, ◌*◌, ◌^◌, ◌≤◌, min, max, Bool, Option, none, some, ltb, if◌then◌else◌, ℤ, pos, negsuc,
}

pub record BackoffPolicy : Type 0 where
  pub base_delay : ℕ
  pub max_delay : ℕ
  pub max_retries : ℕ

-- `random.Random`, as far as the program uses it.
pub record Random : Type 1 where
  pub Rng : Type 0
  pub uniform : Rng → ℕ → ℕ × Rng
  pub uniform_le : (r : Rng) (cap : ℕ) → (uniform r cap).0 ≤ cap

-- `2.0**attempt` is an OverflowError from this exponent on.
abbrev pub float_exponents : ℕ
float_exponents = 1024

-- `none` is the ValueError of a negative attempt, or the OverflowError.
unfoldable pub exponential_cap : ℤ → ℕ → ℕ → Option ℕ
exponential_cap (negsuc n) base_delay max_delay = none
exponential_cap (pos n) base_delay max_delay =
    if ltb n float_exponents then some (min max_delay (base_delay * 2 ^ n)) else none

abbrev with_floor : ℕ → Option ℕ → ℕ → ℕ
with_floor max_delay none delay = delay
with_floor max_delay (some r) delay = if ltb 0 r then max delay (min r max_delay) else delay

module _ (random : Random) where
  open random use {Rng, uniform}

  draw : BackoffPolicy → Option ℕ → Rng → Option ℕ → Option (ℕ × Rng)
  draw policy retry_after rng none = none
  draw policy retry_after rng (some cap) =
      let (delay, rng') = uniform rng cap in
      some (min (with_floor policy.max_delay retry_after delay) policy.max_delay, rng')

  unfoldable pub compute_delay : ℤ → BackoffPolicy → Option ℕ → Rng → Option (ℕ × Rng)
  unfolding draw exponential_cap
  compute_delay attempt policy retry_after rng =
      draw policy retry_after rng (exponential_cap attempt policy.base_delay policy.max_delay)
