-- ===== src/Storage/Decimal.antt =====
-- Finite values of Python's `Decimal`: plus or minus `units / 10 ^ scale`, by value (1.5 and 1.50 are
-- compared as equal). A quotient is exact: the 28-digit context does not round it.
pub mod Order
use acquire_intel.Prelude.{ℕ, ◌*◌, ◌^◌, Bool, true, false, ◌&&◌, not, ltb, ◌==◌}
use acquire_intel.Prelude.Ratio.{Ratio, ratio}

pub record Decimal : Type 0 where
  pub negative : Bool
  pub units : ℕ
  pub scale : ℕ

abbrev pub decimal : ℕ → ℕ → Decimal
decimal units scale = record { negative = false; units = units; scale = scale }

abbrev pub zero_amount : Decimal
zero_amount = decimal 0 0

-- The magnitudes of two decimals on a common scale.
abbrev pub aligned : Decimal → Decimal → ℕ
aligned a b = a.units * 10 ^ b.scale

abbrev pub lt_signed : Bool → Bool → ℕ → ℕ → Bool
lt_signed true true x y = ltb y x
lt_signed true false x y = not (x == 0 && y == 0)
lt_signed false true x y = false
lt_signed false false x y = ltb x y

-- a < b
unfoldable pub lt_decimal : Decimal → Decimal → Bool
lt_decimal a b = lt_signed a.negative b.negative (aligned a b) (aligned b a)

-- a <= b
abbrev pub le_decimal : Decimal → Decimal → Bool
le_decimal a b = not (lt_decimal b a)

-- a / b, for two positive decimals.
abbrev pub quotient : Decimal → Decimal → Ratio
quotient a b = ratio (aligned a b) (aligned b a)
