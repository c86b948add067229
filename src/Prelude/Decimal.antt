-- ===== src/Prelude/Decimal.antt =====
-- Decimal numerals: what `str(n)` prints for a natural number, and that it can be read back.
use Prim.Native.Nat.{ℕ, zero, suc, ◌+◌, ◌*◌, ◌-◌, ◌/◌, ◌%◌, ◌<◌, ◌≤◌}
use mathlib.Core.Path.{◌≡◌, refl, ap, sym, ◌∙◌}
use mathlib.Core.Logic.{inl, inr}
use mathlib.Core.List.{[], ◌∷◌, ◌++◌}
use native.Mathlib.Omega.{arith}
use acquire_intel.Prelude.Tests.{ltb, ltb→lt, if◌then◌else◌, Bool-cases}
use acquire_intel.Prelude.Texts.{Text}
use acquire_intel.Prelude.Lists.{All, All-append}

show_fuel : ℕ → ℕ → Text
show_fuel zero n = []
show_fuel (suc f) n =
    let rest = show_fuel f (n / 10) in
    if ltb n 10 then (48 + n) ∷ [] else rest ++ (48 + n % 10) ∷ []

-- A number is above each of its quotients, so it is fuel enough.
unfoldable pub show : ℕ → Text
unfolding show_fuel
show n = show_fuel (suc n) n

-- `int` of decimal digits, after the number read so far.
unfoldable pub read : ℕ → Text → ℕ
read acc [] = acc
read acc (c ∷ s) = read (acc * 10 + (c - 48)) s

read-append : (acc : ℕ) (s t : Text) → read acc (s ++ t) ≡ read (read acc s) t
unfolding read
read-append acc [] t = refl
read-append acc (c ∷ s) t = read-append (acc * 10 + (c - 48)) s t

read-show_fuel : (f n : ℕ) → n < f → read 0 (show_fuel f n) ≡ n
unfolding read show_fuel
read-show_fuel zero n h = elim h [ ]
read-show_fuel (suc f) n h = elim (Bool-cases (ltb n 10)) [
  | inl e ↦ rw e (omega arith)
  | inr e ↦ rw e (
      read-append 0 (show_fuel f (n / 10)) ((48 + n % 10) ∷ [])
      ∙ ground (arith, read-show_fuel f (n / 10)))
]

pub read-show : (n : ℕ) → read 0 (show n) ≡ n
unfolding show
read-show n = read-show_fuel (suc n) n (omega arith)

-- Two numbers that print alike are equal.
pub show-injective : (m n : ℕ) → show m ≡ show n → m ≡ n
unfolding show
show-injective m n e =
    sym (read-show_fuel (suc m) m (omega arith))
    ∙ ap (read 0) e
    ∙ read-show_fuel (suc n) n (omega arith)

-- A decimal digit.
abbrev pub IsDigit : ℕ → Type 0
IsDigit c = (48 ≤ c) × (c ≤ 57)

show_fuel-IsDigit : (f n : ℕ) → All IsDigit (show_fuel f n)
unfolding show_fuel
show_fuel-IsDigit zero n = tt
show_fuel-IsDigit (suc f) n = elim (Bool-cases (ltb n 10)) [
  | inl e ↦ rw e ((omega arith, omega (arith, ltb→lt n 10 e)), tt)
  | inr e ↦ rw e (
      All-append IsDigit (show_fuel f (n / 10)) ((48 + n % 10) ∷ []) (show_fuel-IsDigit f (n / 10))
        ((omega arith, omega arith), tt))
]

pub show-IsDigit : (n : ℕ) → All IsDigit (show n)
unfolding show
show-IsDigit n = show_fuel-IsDigit (suc n) n

pub show-nonempty : (n : ℕ) → (c : ℕ) × (s : Text) × (show n ≡ c ∷ s)
unfolding show show_fuel
show-nonempty n = elim (Bool-cases (ltb n 10)) [
  | inl e ↦ (48 + n, [], rw e refl)
  | inr e ↦ rw e (append-nonempty (show_fuel n (n / 10)) (48 + n % 10))
]
  where
    append-nonempty : (s : Text) (d : ℕ) → (c : ℕ) × (t : Text) × (s ++ d ∷ [] ≡ c ∷ t)
    append-nonempty [] d = (d, [], refl)
    append-nonempty (c ∷ s) d = (c, s ++ d ∷ [], refl)
