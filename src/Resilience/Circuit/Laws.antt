-- ===== src/Resilience/Circuit/Laws.antt =====
-- What the breaker promises: when it trips, and how long it refuses.
use acquire_intel.Prelude.{
  ℕ, ◌+◌, ◌≤◌, ◌<◌, ◌≡◌, refl, ◌≢◌, ◌⊎◌, Bool, true, false, Option, none, some, List, [], ◌∷◌, ◌++◌,
  arith, All, Option-cases, inl, inr, map, length, ◌↔◌,
}
use acquire_intel.Resilience.Circuit.{
  closed, opened, half_open, CircuitBreaker, allow, record_success, record_failure,
}

-- What holds of a breaker between two calls. An open breaker knows when it opened, which is what
-- the assertion of `allow` asks.
pub record IsValid (b : CircuitBreaker) : Type 0 where
  pub dated : b.state ≡ opened → b.opened_at ≢ none
  pub below : b.failures < b.failure_threshold ⊎ (b.failure_threshold ≡ 0) × (b.failures ≡ 0)
  pub clean : b.state ≡ closed → b.opened_at ≡ none

-- The calls that a middleware makes, each with the clock that it reads.
pub data Call : Type 0 where
  ask failure : ℕ → Call
  success : Call

abbrev asked : Option (Bool × CircuitBreaker) → Option CircuitBreaker
asked none = none
asked (some r) = some r.1

unfoldable pub call : Call → CircuitBreaker → Option CircuitBreaker
call (ask now) b = asked (allow now b)
call (failure now) b = some (record_failure now b)
call success b = some (record_success b)

abbrev then_run :
    (CircuitBreaker → Option CircuitBreaker) → Option CircuitBreaker → Option CircuitBreaker
then_run f none = none
then_run f (some b) = f b

-- `none` where some assertion fails.
unfoldable pub run : List Call → CircuitBreaker → Option CircuitBreaker
run [] b = some b
run (c ∷ cs) b = then_run (run cs) (call c b)

pub allow_total :
    (now : ℕ) (b : CircuitBreaker)
    → IsValid b
    → (r : Bool × CircuitBreaker) × (allow now b ≡ some r) × IsValid r.1
unfolding allow
allow_total now b v = elim (Option-cases (allow now b)) [
  | inl e ↦ absurd (ground arith)
  | inr (r, e) ↦ (r, e, ground arith)
]

call-IsValid :
    (c : Call) (b : CircuitBreaker)
    → IsValid b
    → (b' : CircuitBreaker) × (call c b ≡ some b') × IsValid b'
unfolding call record_success record_failure
call-IsValid (ask now) b v = let (r, e, w) = allow_total now b v in (r.1, rw e, w)
call-IsValid (failure now) b v = (record_failure now b, refl, ground arith)
call-IsValid success b v = (record_success b, refl, ground arith)

-- No sequence of calls on a valid breaker fails the assertion of `allow`, and the breaker that it
-- leaves is valid again.
pub run-IsValid :
    (cs : List Call) (b : CircuitBreaker)
    → IsValid b
    → (b' : CircuitBreaker) × (run cs b ≡ some b') × IsValid b'
unfolding run
run-IsValid [] b v = (b, refl, v)
run-IsValid (c ∷ cs) b v =
    let (b1, e, v1) = call-IsValid c b v in
    let (b2, e2, v2) = run-IsValid cs b1 v1 in (b2, rw e e2, v2)

-- Successive calls of `allow`, with the clock of each.
abbrev pub and_asks :
    Option (Bool × CircuitBreaker)
    → (CircuitBreaker → Option (List Bool × CircuitBreaker))
    → Option (List Bool × CircuitBreaker)
and_asks none rest = none
and_asks (some (x, b)) rest = elim (rest b) [ none ↦ none | some (xs, b') ↦ some (x ∷ xs, b') ]

unfoldable pub asks : List ℕ → CircuitBreaker → Option (List Bool × CircuitBreaker)
asks [] b = some ([], b)
asks (now ∷ nows) b = and_asks (allow now b) (asks nows)

allow_early :
    (now t : ℕ) (b : CircuitBreaker)
    → b.state ≡ opened
    → b.opened_at ≡ some t
    → now < t + b.cooldown_seconds
    → allow now b ≡ some (false, b)
unfolding allow
allow_early now t b o d h = ground arith

pub allow_late :
    (now t : ℕ) (b : CircuitBreaker)
    → b.state ≡ opened
    → b.opened_at ≡ some t
    → t + b.cooldown_seconds ≤ now
    → allow now b ≡ some (true, record b { state = half_open })
unfolding allow
allow_late now t b o d h = ground arith

-- An open breaker refuses every request that comes before its cool-down is over, and stays as it
-- is; the first request from then on passes and makes it half-open.
pub refuses_until_cooldown :
    (nows : List ℕ) (late t : ℕ) (b : CircuitBreaker)
    → b.state ≡ opened
    → b.opened_at ≡ some t
    → All (λ now. now < t + b.cooldown_seconds) nows
    → t + b.cooldown_seconds ≤ late
    → asks (nows ++ late ∷ []) b
      ≡ some (map (λ _. false) nows ++ true ∷ [], record b { state = half_open })
unfolding asks
refuses_until_cooldown [] late t b o d h l = rw (allow_late late t b o d l, and_asks)
refuses_until_cooldown (now ∷ nows) late t b o d h l =
    rw (allow_early now t b o d h.0, refuses_until_cooldown nows late t b o d h.1 l, and_asks)

-- Successive blocks, with the clock of each.
unfoldable pub fail_all : List ℕ → CircuitBreaker → CircuitBreaker
fail_all [] b = b
fail_all (now ∷ nows) b = fail_all nows (record_failure now b)

failure_opened :
    (now : ℕ) (b : CircuitBreaker) → b.state ≡ opened → (record_failure now b).state ≡ opened
unfolding record_failure
failure_opened now b o = ground arith

stays_opened :
    (nows : List ℕ) (b : CircuitBreaker) → b.state ≡ opened → (fail_all nows b).state ≡ opened
unfolding fail_all
stays_opened [] b o = o
stays_opened (now ∷ nows) b o = stays_opened nows (record_failure now b) (failure_opened now b o)

failure_closed :
    (now : ℕ) (b : CircuitBreaker)
    → b.state ≡ closed
    → ((record_failure now b).state ≡ opened) × (b.failure_threshold ≤ b.failures + 1)
      ⊎ (record_failure now b ≡ record b { failures = b.failures + 1 })
        × (b.failures + 1 < b.failure_threshold)
unfolding record_failure
failure_closed now b c = ground arith

-- On a closed breaker whose count is below the threshold, a run of blocks with no success between
-- trips it exactly if the count and the run together reach the threshold.
pub trips_at_threshold :
    (nows : List ℕ) (b : CircuitBreaker)
    → b.state ≡ closed
    → b.failures < b.failure_threshold
    → ((fail_all nows b).state ≡ opened) ↔ (b.failure_threshold ≤ b.failures + length nows)
unfolding fail_all
trips_at_threshold [] b c h = (λ e. cc, λ l. absurd (omega arith))
trips_at_threshold (now ∷ nows) b c h = elim (failure_closed now b c) [
  | inl (o, l) ↦ (λ _. omega arith, λ _. stays_opened nows (record_failure now b) o)
  | inr (e, l) ↦
      rw (e, fail_all)
        (let (to, from) = trips_at_threshold nows (record b { failures = b.failures + 1 }) c l in
          (λ o. omega (arith, to o), λ k. from (omega arith)))
]
