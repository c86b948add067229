-- ===== src/Api/RateLimiter.antt =====
-- `RateLimiter` of src/acquire_intel/api/admin.py: the sliding window over the admin crawl calls. The
-- deque is a list, oldest first; the clock is the argument `now`.
use acquire_intel.Prelude.{
  ℕ, ◌-◌, ◌+◌, ◌≤◌, ◌<◌, ◌≡◌, refl, sym, ap, subst, ◌∙◌, Bool, true, false, List, [], ◌∷◌, ◌++◌,
  ltb, leb, leb→le, if◌then◌else◌, length, length-append, All, All-append, All-imp, Bool-cases, inl,
  inr, arith, is_empty,
}
pub mod Laws
pub mod Refinement
mod Tests

pub record RateLimiter : Type 0 where
  pub max : ℕ
  pub per : ℕ
  pub calls : List ℕ

abbrev pub new_limiter : ℕ → ℕ → RateLimiter
new_limiter max_calls per_seconds = record { max = max_calls; per = per_seconds; calls = [] }

-- The `while` loop: calls that have left the window go.
unfoldable pub expire : ℕ → ℕ → List ℕ → List ℕ
expire now per [] = []
expire now per (c ∷ calls) =
    let rest = expire now per calls in if leb per (now - c) then rest else c ∷ calls

-- The second half of `allow`.
abbrev pub admit : ℕ → RateLimiter → Bool × RateLimiter
admit now l =
    if leb l.max (length l.calls)
    then (false, l)
    else (true, record l { calls = l.calls ++ now ∷ [] })

unfoldable pub allow : ℕ → RateLimiter → Bool × RateLimiter
unfolding expire
allow now l = admit now (record l { calls = expire now l.per l.calls })

-- The times of the calls that are let by, of calls at the given times.
unfoldable pub run : List ℕ → RateLimiter → List ℕ × RateLimiter
unfolding allow
run [] l = ([], l)
run (now ∷ times) l =
    let (ok, l') = allow now l in
    let (rest, l'') = run times l' in (if ok then now ∷ rest else rest, l'')

-- The clock does not go back.
abbrev pub Ascending : ℕ → List ℕ → Type 0
Ascending last [] = Unit
Ascending last (now ∷ times) = (last ≤ now) × Ascending now times

abbrev pub ends_by : ℕ → List ℕ → ℕ
ends_by last [] = last
ends_by last (now ∷ times) = ends_by now times

-- How many of the times lie less than `per` before `now`.
unfoldable pub within : ℕ → ℕ → List ℕ → ℕ
within per now [] = 0
within per now (t ∷ times) =
    let rest = within per now times in if ltb (now - t) per then 1 + rest else rest
