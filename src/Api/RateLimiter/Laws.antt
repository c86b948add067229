-- ===== src/Api/RateLimiter/Laws.antt =====
-- The limiter never lets by more calls than it is set to, in any stretch of its length.
use acquire_intel.Prelude.{
  ℕ, ◌-◌, ◌+◌, ◌≤◌, ◌<◌, ◌≡◌, refl, sym, ap, subst, ◌∙◌, Bool, true, false, List, [], ◌∷◌, ◌++◌,
  leb, leb→le, if◌then◌else◌, length, length-append, All, All-append, All-imp, Bool-cases, inl, inr,
  arith,
}
use mathlib.Core.Path.{subst₂}
use mathlib.Core.List.{append_assoc, append-nil}
use acquire_intel.Api.RateLimiter.{
  RateLimiter, new_limiter, expire, admit, allow, run, Ascending, ends_by, within,
}

pub within-append :
    (per now : ℕ) (xs ys : List ℕ)
    → within per now (xs ++ ys) ≡ within per now xs + within per now ys
unfolding within
within-append per now [] ys = omega arith
within-append per now (x ∷ xs) ys = ground (arith, within-append per now xs ys)

within-length : (per now : ℕ) (xs : List ℕ) → within per now xs ≤ length xs
unfolding within
within-length per now [] = omega arith
within-length per now (x ∷ xs) = ground (arith, within-length per now xs)

abbrev pub Gone : ℕ → ℕ → List ℕ → Type 0
Gone per last xs = All (λ t. t + per ≤ last) xs

pub within-Gone :
    (per now last : ℕ) (xs : List ℕ) → last ≤ now → Gone per last xs → within per now xs ≡ 0
unfolding within
within-Gone per now last [] h g = refl
within-Gone per now last (x ∷ xs) h g = ground (arith, within-Gone per now last xs h g.1)

-- The calls let by so far: some that have left the window, and the deque, which is never too long.
pub record Window (last : ℕ) (h : List ℕ) (l : RateLimiter) : Type 0 where
  pub gone : List ℕ
  pub split : h ≡ gone ++ l.calls
  pub past : Gone l.per last gone
  pub few : length l.calls ≤ l.max

-- What the loop drops has left the window.
expire-Gone :
    (now per : ℕ) (calls : List ℕ)
    → 0 < per
    → (out : List ℕ) × (calls ≡ out ++ expire now per calls) × Gone per now out
unfolding expire
expire-Gone now per [] p = ([], refl, tt)
expire-Gone now per (c ∷ calls) p = elim (Bool-cases (leb per (now - c))) [
  | inl e ↦
      let (out, split, g) = expire-Gone now per calls p in
      rw e (c ∷ out, ap (λ (t : List ℕ). c ∷ t) split, (omega (arith, leb→le per (now - c) e), g))
  | inr e ↦ rw e ([], refl, tt)
]

dropped-length : (calls out rest : List ℕ) → calls ≡ out ++ rest → length rest ≤ length calls
dropped-length calls out rest e = omega (arith, length-append out rest, ap length e)

pub expire-Window :
    (last now : ℕ) (h : List ℕ) (l : RateLimiter)
    → 0 < l.per
    → last ≤ now
    → Window last h l
    → Window now h (record l { calls = expire now l.per l.calls })
expire-Window last now h l p t w =
    let (out, split, g) = expire-Gone now l.per l.calls p in
    record {
      gone = w.gone ++ out;
      split =
          w.split
          ∙ ap (λ (t : List ℕ). w.gone ++ t) split
          ∙ sym (append_assoc w.gone out (expire now l.per l.calls));
      past = All-append _ w.gone out (All-imp _ _ w.gone (λ x b. omega (arith, b)) w.past) g;
      few = omega (arith, w.few, dropped-length l.calls out (expire now l.per l.calls) split);
    }

-- The history after a call.
abbrev noted : Bool → ℕ → List ℕ → List ℕ
noted ok now h = if ok then h ++ now ∷ [] else h

-- A call keeps the two settings of the limiter and the window.
abbrev Stays : ℕ → List ℕ → RateLimiter → Bool × RateLimiter → Type 0
Stays now h l r = (r.1.per ≡ l.per) × (r.1.max ≡ l.max) × Window now (noted r.0 now h) r.1

pub admitted-Window :
    (now : ℕ) (h : List ℕ) (l : RateLimiter)
    → Window now h l
    → length l.calls < l.max
    → Window now (h ++ now ∷ []) (record l { calls = l.calls ++ now ∷ [] })
admitted-Window now h l w fewer = record {
  gone = w.gone;
  split = ap (λ (t : List ℕ). t ++ now ∷ []) w.split ∙ append_assoc w.gone l.calls (now ∷ []);
  past = w.past;
  few = omega (arith, length-append l.calls (now ∷ []));
}

admit-Stays :
    (now : ℕ) (h : List ℕ) (l : RateLimiter) → Window now h l → Stays now h l (admit now l)
admit-Stays now h l w = elim (Bool-cases (leb l.max (length l.calls))) [
  | inl e ↦ rw e (refl, refl, w)
  | inr e ↦ rw e (refl, refl, admitted-Window now h l w (ground arith))
]

allow-Stays :
    (last now : ℕ) (h : List ℕ) (l : RateLimiter)
    → 0 < l.per
    → last ≤ now
    → Window last h l
    → Stays now h l (allow now l)
unfolding allow
allow-Stays last now h l p t w =
    admit-Stays now h (record l { calls = expire now l.per l.calls })
      (expire-Window last now h l p t w)

-- The history after a run.
abbrev Follows : ℕ → List ℕ → RateLimiter → List ℕ × RateLimiter → Type 0
Follows last h l r = (r.1.per ≡ l.per) × (r.1.max ≡ l.max) × Window last (h ++ r.0) r.1

noted-append :
    (ok : Bool) (now : ℕ) (h rest : List ℕ)
    → noted ok now h ++ rest ≡ h ++ (if ok then now ∷ rest else rest)
noted-append true now h rest = append_assoc h (now ∷ []) rest
noted-append false now h rest = refl

Window-within :
    (last now : ℕ) (h : List ℕ) (l : RateLimiter)
    → last ≤ now
    → Window last h l
    → within l.per now h ≤ l.max
Window-within last now h l late w =
    subst (λ (t : List ℕ). within l.per now t ≤ l.max) (sym w.split)
      (omega (
        arith,
        within-append l.per now w.gone l.calls,
        within-Gone l.per now last w.gone late w.past,
        within-length l.per now l.calls,
        w.few,
      ))

run-Follows :
    (times : List ℕ) (last : ℕ) (h : List ℕ) (l : RateLimiter)
    → 0 < l.per
    → Ascending last times
    → Window last h l
    → Follows (ends_by last times) h l (run times l)
unfolding run
run-Follows [] last h l p a w = (refl, refl, rw append-nil w)
run-Follows (now ∷ times) last h l p a w =
    let (same_per, same_max, w') = allow-Stays last now h l p a.0 w in
    let (per_kept, max_kept, w'') =
      run-Follows times now (noted (allow now l).0 now h) (allow now l).1 (omega (arith, same_per))
        a.1 w' in
    (
      per_kept ∙ same_per,
      max_kept ∙ same_max,
      subst (λ (t : List ℕ). Window (ends_by now times) t (run times (allow now l).1).1)
          (noted-append (allow now l).0 now h (run times (allow now l).1).0) w'',
    )

-- However often it is called, with a clock that does not go back and a positive period, the
-- limiter lets by at most `max_calls` calls in any `per_seconds`: seen from any moment from the
-- last call on, no more than that many lie within the time before it.
pub run-within :
    (max_calls per : ℕ) (times : List ℕ) (now : ℕ)
    → 0 < per
    → Ascending 0 times
    → ends_by 0 times ≤ now
    → within per now (run times (new_limiter max_calls per)).0 ≤ max_calls
run-within max_calls per times now p a late =
    let start : Window 0 [] (new_limiter max_calls per) = record {
      gone = [];
      split = refl;
      past = tt;
      few = omega arith;
    } in
    let (same_per, same_max, w) = run-Follows times 0 [] (new_limiter max_calls per) p a start in
    let seen =
      Window-within (ends_by 0 times) now _ (run times (new_limiter max_calls per)).1 late w in
    subst₂ (λ (k m : ℕ). within k now (run times (new_limiter max_calls per)).0 ≤ m) same_per
      same_max seen
