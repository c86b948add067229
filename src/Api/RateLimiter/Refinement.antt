-- ===== src/Api/RateLimiter/Refinement.antt =====
-- The limiter with its deque does what one does that keeps every call and counts the recent ones.
use acquire_intel.Prelude.{
  ℕ, ◌-◌, ◌+◌, ◌≤◌, ◌<◌, ◌≡◌, refl, sym, ap, subst, ◌∙◌, Bool, true, false, List, [], ◌∷◌, ◌++◌,
  ltb, leb, leb→le, if◌then◌else◌, length, Bool-cases, inl, inr, arith,
}
use acquire_intel.Api.RateLimiter.{
  RateLimiter, new_limiter, expire, allow, run, Ascending, ends_by, within,
}
use acquire_intel.Api.RateLimiter.Laws.{
  within-append, within-Gone, Window, expire-Window, admitted-Window,
}

-- The specification: of all the calls let by so far, fewer than `max_calls` lie within the period.
unfoldable pub reference : ℕ → ℕ → List ℕ → List ℕ → List ℕ
reference max_calls per history [] = []
reference max_calls per history (now ∷ times) =
    let refused = reference max_calls per history times in
    let admitted = reference max_calls per (history ++ now ∷ []) times in
    if ltb (within per now history) max_calls then now ∷ admitted else refused

-- The deque is in order.
abbrev Sorted : ℕ → List ℕ → Type 0
Sorted last calls = Ascending 0 calls × (ends_by 0 calls ≤ last)

pub Ascending-weaken :
    (low first : ℕ) (calls : List ℕ) → low ≤ first → Ascending first calls → Ascending low calls
Ascending-weaken low first [] h a = tt
Ascending-weaken low first (c ∷ calls) h a = (omega (arith, a.0), a.1)

Ascending-append :
    (low now : ℕ) (calls : List ℕ)
    → Ascending low calls
    → ends_by low calls ≤ now
    → Ascending low (calls ++ now ∷ []) × (ends_by low (calls ++ now ∷ []) ≤ now)
Ascending-append low now [] a h = ((h, tt), omega arith)
Ascending-append low now (c ∷ calls) a h =
    let (rest, end) = Ascending-append c now calls a.1 h in ((a.0, rest), end)

pub ends_by-le :
    (low first : ℕ) (calls : List ℕ) → low ≤ first → ends_by low calls ≤ ends_by first calls
ends_by-le low first [] h = h
ends_by-le low first (c ∷ calls) h = omega arith

expire-Sorted :
    (now per last : ℕ) (calls : List ℕ) → Sorted last calls → Sorted last (expire now per calls)
unfolding expire
expire-Sorted now per last [] s = s
expire-Sorted now per last (c ∷ calls) s = elim (Bool-cases (leb per (now - c))) [
  | inl e ↦ rw e (
      expire-Sorted now per last calls (
        Ascending-weaken 0 c calls (omega arith) s.0.1,
        omega (arith, s.1, ends_by-le 0 c calls (omega arith)),
      ))
  | inr e ↦ rw e s
]

-- Behind a call that is in the window, all are.
within-all :
    (per now first : ℕ) (calls : List ℕ)
    → now - first < per
    → Ascending first calls
    → within per now calls ≡ length calls
unfolding within
within-all per now first [] h a = refl
within-all per now first (c ∷ calls) h a =
    ground (arith, within-all per now c calls (omega (arith, a.0)) a.1)

within-expire :
    (now per : ℕ) (calls : List ℕ)
    → Ascending 0 calls
    → within per now (expire now per calls) ≡ length (expire now per calls)
unfolding expire within
within-expire now per [] a = refl
within-expire now per (c ∷ calls) a = elim (Bool-cases (leb per (now - c))) [
  | inl e ↦ rw e (within-expire now per calls (Ascending-weaken 0 c calls (omega arith) a.1))
  | inr e ↦ rw e (within-all per now c (c ∷ calls) (ground arith) (omega arith, a.1))
]

abbrev expired : ℕ → RateLimiter → RateLimiter
expired now l = record l { calls = expire now l.per l.calls }

zero_plus : (n : ℕ) → 0 + n ≡ n
zero_plus n = omega arith

-- The deque is as long as the specification counts.
counted :
    (now : ℕ) (h : List ℕ) (l : RateLimiter)
    → Window now h (expired now l)
    → Ascending 0 l.calls
    → within l.per now h ≡ length (expire now l.per l.calls)
counted now h l w a =
    ap (within l.per now) w.split
    ∙ within-append l.per now w.gone (expire now l.per l.calls)
    ∙ ap (λ (t : ℕ). t + within l.per now (expire now l.per l.calls))
        (within-Gone l.per now now w.gone (omega arith) w.past)
    ∙ ap (λ (t : ℕ). 0 + t) (within-expire now l.per l.calls a)
    ∙ zero_plus _

-- The two answers of the specification to a call.
reference_refuses :
    (m per now : ℕ) (h times : List ℕ)
    → m ≤ within per now h
    → reference m per h (now ∷ times) ≡ reference m per h times
unfolding reference
reference_refuses m per now h times k = ground (arith, k)

reference_admits :
    (m per now : ℕ) (h times : List ℕ)
    → within per now h < m
    → reference m per h (now ∷ times) ≡ now ∷ reference m per (h ++ now ∷ []) times
unfolding reference
reference_admits m per now h times k = ground (arith, k)

abbrev answered : ℕ → RateLimiter → Bool → Bool × RateLimiter
answered now l refused =
    if refused then (false, l) else (true, record l { calls = l.calls ++ now ∷ [] })

-- What a run comes to after a call that was let by or not.
abbrev Refines : ℕ → List ℕ → List ℕ → RateLimiter → Bool × RateLimiter → Type 0
Refines now times h l (ok, l') =
    (if ok then now ∷ (run times l').0 else (run times l').0)
    ≡ reference l.max l.per h (now ∷ times)

run-reference_from :
    (times : List ℕ) (last : ℕ) (h : List ℕ) (l : RateLimiter)
    → 0 < l.per
    → Ascending last times
    → Window last h l
    → Sorted last l.calls
    → (run times l).0 ≡ reference l.max l.per h times
unfolding run reference allow
run-reference_from [] last h l p a w s = refl
run-reference_from (now ∷ times) last h l p a w s =
    let calls = expire now l.per l.calls in
    let w' : Window now h (expired now l) = expire-Window last now h l p a.0 w in
    let (in_order, ended) = expire-Sorted now l.per last l.calls s in
    let full = counted now h l w' s.0 in
    elim (Bool-cases (leb l.max (length calls))) [
      | inl e ↦
          subst (λ (b : Bool). Refines now times h l (answered now (expired now l) b)) (sym e)
            (run-reference_from times now h (expired now l) p a.1 w' (in_order, omega arith)
              ∙ sym (
                  reference_refuses l.max l.per now h times
                    (omega (arith, full, leb→le l.max (length calls) e))))
      | inr e ↦
          let fewer : length calls < l.max = ground arith in
          subst (λ (b : Bool). Refines now times h l (answered now (expired now l) b)) (sym e)
            (ap (λ (t : List ℕ). now ∷ t)
                (run-reference_from times now (h ++ now ∷ [])
                  (record l { calls = calls ++ now ∷ [] }) p a.1
                  (admitted-Window now h (expired now l) w' fewer)
                  (Ascending-append 0 now calls in_order (omega (arith, a.0))))
              ∙ sym (reference_admits l.max l.per now h times (omega (arith, full))))
    ]

-- With a clock that does not go back and a positive period, the limiter answers every sequence of
-- calls as the specification does that forgets no call: a call is let by if and only if fewer than
-- `max_calls` of all those let by before it lie less than `per_seconds` in the past.
pub run-reference :
    (max_calls per : ℕ) (times : List ℕ)
    → 0 < per
    → Ascending 0 times
    → (run times (new_limiter max_calls per)).0 ≡ reference max_calls per [] times
run-reference max_calls per times p a =
    let start : Window 0 [] (new_limiter max_calls per) = record {
      gone = [];
      split = refl;
      past = tt;
      few = omega arith;
    } in
    run-reference_from times 0 [] (new_limiter max_calls per) p a start (tt, omega arith)
