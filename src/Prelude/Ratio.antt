-- ===== src/Prelude/Ratio.antt =====
-- Exact fractions, for the quotients that the program takes of floats and decimals: `num / den`
-- with a denominator that the caller has made positive.
use Prim.Native.Nat.{ℕ, ◌*◌}
use mathlib.Core.Bool.{Bool, false}
use acquire_intel.Prelude.Tests.{ltb, leb, if◌then◌else◌}

pub record Ratio : Type 0 where
  pub num : ℕ
  pub den : ℕ

abbrev pub ratio : ℕ → ℕ → Ratio
ratio a b = record { num = a; den = b }

-- a < b
abbrev pub lt_ratio : Ratio → Ratio → Bool
lt_ratio a b = ltb (a.num * b.den) (b.num * a.den)

-- a <= b
abbrev pub le_ratio : Ratio → Ratio → Bool
le_ratio a b = leb (a.num * b.den) (b.num * a.den)

-- max(a, b)
abbrev pub max_ratio : Ratio → Ratio → Ratio
max_ratio a b = if lt_ratio a b then b else a

-- A finite float that may be negative: minus `size`, or `size`.
pub record Signed : Type 0 where
  pub negative : Bool
  pub size : Ratio

abbrev pub positive : ℕ → ℕ → Signed
positive a b = record { negative = false; size = ratio a b }
