-- ===== src/Resilience/Circuit/Probe.antt =====
-- The recovery of an open breaker: the probes after its cool-down, and what their outcome decides.
use acquire_intel.Prelude.{
  ℕ, ◌+◌, ◌≤◌, ◌<◌, ◌≡◌, ◌≢◌, refl, true, false, some, List, [], ◌∷◌, ◌++◌, arith, All, map,
}
use acquire_intel.Resilience.Circuit.{
  opened, half_open, CircuitBreaker, allow, record_success, record_failure, trip,
}
use acquire_intel.Resilience.Circuit.Laws.{and_asks, asks, allow_late, refuses_until_cooldown}

allow_passing : (now : ℕ) (b : CircuitBreaker) → b.state ≢ opened → allow now b ≡ some (true, b)
unfolding allow
allow_passing now b o = ground arith

asks_passing :
    (nows : List ℕ) (b : CircuitBreaker)
    → b.state ≢ opened
    → asks nows b ≡ some (map (λ _. true) nows, b)
unfolding asks
asks_passing [] b o = refl
asks_passing (now ∷ nows) b o = rw (allow_passing now b o, asks_passing nows b o, and_asks)

success_closed : (b : CircuitBreaker) → (record_success b).state ≢ opened
unfolding record_success
success_closed b e = cc

-- The probe of a half-open breaker that is blocked opens it again, from that moment.
failure_reopens :
    (now : ℕ) (b : CircuitBreaker)
    → b.state ≡ half_open
    → ((record_failure now b).state ≡ opened)
      × ((record_failure now b).opened_at ≡ some now)
      × ((record_failure now b).cooldown_seconds ≡ b.cooldown_seconds)
unfolding record_failure trip
failure_reopens now b h = ground arith

-- The breaker in its half-open state.
abbrev pub probing : CircuitBreaker → CircuitBreaker
probing b = record b { state = half_open }

-- An open breaker whose cool-down is over lets the next request by, and every further one, until an
-- outcome is recorded. After a success all requests pass. After a block at `now` none passes before
-- another whole cool-down is over, and the first one from then on does.
pub probe_decides :
    (b : CircuitBreaker) (t late : ℕ) (more : List ℕ)
    → b.state ≡ opened
    → b.opened_at ≡ some t
    → t + b.cooldown_seconds ≤ late
    → (asks (late ∷ more) b ≡ some (map (λ _. true) (late ∷ more), probing b))
      × ((nows : List ℕ)
          → asks nows (record_success (probing b))
            ≡ some (map (λ _. true) nows, record_success (probing b)))
      × ((now next : ℕ) (nows : List ℕ)
          → All (λ n. n < now + b.cooldown_seconds) nows
          → now + b.cooldown_seconds ≤ next
          → asks (nows ++ next ∷ []) (record_failure now (probing b))
            ≡ some (map (λ _. false) nows ++ true ∷ [], probing (record_failure now (probing b))))
unfolding asks
probe_decides b t late more o d l = (
  rw (allow_late late t b o d l, asks_passing more (probing b) (λ e. cc), and_asks),
  (λ nows. asks_passing nows (record_success (probing b)) (success_closed (probing b))),
  λ now next nows early after.
      let (state, at, same) = failure_reopens now (probing b) refl in
      refuses_until_cooldown nows next now (record_failure now (probing b)) state at (rw same early)
        (rw same after),
)
