-- ===== src/Resilience/Backoff/Laws.antt =====
-- The bounds of a retry delay.
use acquire_intel.Prelude.{
  ℕ, ◌*◌, ◌^◌, ◌≤◌, ◌<◌, min, max, ◌≡◌, refl, Option, none, some, pos, ltb, if◌then◌else◌, lt→ltb,
  arith,
}
use acquire_intel.Resilience.Backoff.{BackoffPolicy, Random, exponential_cap, compute_delay}

-- What the delay owes to a Retry-After header: not sooner, up to the cap of the policy.
abbrev pub Honours : ℕ → Option ℕ → ℕ → Type 0
Honours max_delay none delay = Unit
Honours max_delay (some r) delay = min r max_delay ≤ delay

-- Without a directive the exponential bound holds.
abbrev pub Exponential : ℕ → ℕ → Option ℕ → ℕ → Type 0
Exponential base n none delay = delay ≤ base * 2 ^ n
Exponential base n (some r) delay = Unit

module _ (random : Random) where
  open random use {Rng, uniform, uniform_le}

  cap_below :
      (n base_delay max_delay : ℕ)
      → n < 1024
      → exponential_cap (pos n) base_delay max_delay ≡ some (min max_delay (base_delay * 2 ^ n))
  unfolding exponential_cap
  cap_below n base_delay max_delay h = rw (lt→ltb n 1024 h) refl

  cap_beyond :
      (n base_delay max_delay : ℕ) → 1024 ≤ n → exponential_cap (pos n) base_delay max_delay ≡ none
  unfolding exponential_cap
  cap_beyond n base_delay max_delay h = ground arith

  -- For an attempt below 1024 there is a delay.
  pub compute_delay-total :
      (n : ℕ) (policy : BackoffPolicy) (retry_after : Option ℕ) (rng : Rng)
      → n < 1024
      → (delay : ℕ) × (rng' : Rng) × (compute_delay random (pos n) policy retry_after rng
          ≡ some (delay, rng'))
        × (delay ≤ policy.max_delay)
        × Honours policy.max_delay retry_after delay
        × Exponential policy.base_delay n retry_after delay
  unfolding compute_delay
  compute_delay-total n policy none rng h =
      let cap = min policy.max_delay (policy.base_delay * 2 ^ n) in
      (
        min (uniform rng cap).0 policy.max_delay,
        (uniform rng cap).1,
        rw (cap_below n policy.base_delay policy.max_delay h) refl,
        omega arith,
        tt,
        omega (arith, uniform_le rng cap),
      )
  compute_delay-total n policy (some r) rng h =
      let cap = min policy.max_delay (policy.base_delay * 2 ^ n) in
      let drawn = (uniform rng cap).0 in
      (
        min (if ltb 0 r then max drawn (min r policy.max_delay) else drawn) policy.max_delay,
        (uniform rng cap).1,
        rw (cap_below n policy.base_delay policy.max_delay h) refl,
        omega arith,
        ground arith,
        tt,
      )

  -- For every attempt from 0 to 1023 there is a delay; it is at most `max_delay`, at least what the
  -- server asked for (up to `max_delay`), and with no request of the server at most
  -- `base_delay * 2 ^ attempt`. From attempt 1024 on there is none: the power overflows and the
  -- exception is raised, whatever `max_delay` is.
  pub compute_delay_bounds :
      (n : ℕ) (policy : BackoffPolicy) (retry_after : Option ℕ) (rng : Rng)
      → (n < 1024
          → (delay : ℕ) × (rng' : Rng) × (compute_delay random (pos n) policy retry_after rng
              ≡ some (delay, rng'))
            × (delay ≤ policy.max_delay)
            × Honours policy.max_delay retry_after delay
            × Exponential policy.base_delay n retry_after delay)
        × (1024 ≤ n → compute_delay random (pos n) policy retry_after rng ≡ none)
  unfolding compute_delay
  compute_delay_bounds n policy retry_after rng = (
    (λ h. compute_delay-total n policy retry_after rng h),
    λ h. rw (cap_beyond n policy.base_delay policy.max_delay h) refl,
  )
