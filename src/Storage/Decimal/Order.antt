-- ===== src/Storage/Decimal/Order.antt =====
-- The order of amounts of money.
use acquire_intel.Prelude.{
  ℕ, zero, suc, ◌*◌, ◌^◌, ◌≤◌, ◌<◌, ◌≡◌, refl, Bool, true, false, not, arith,
}
use native.Mathlib.Nat.{one-le-pow, mul-le-mul_right, le_of_mul-le-mul_left}
use acquire_intel.Storage.Decimal.{Decimal, lt_signed, lt_decimal, le_decimal, aligned}

power_pos : (n : ℕ) → 0 < 10 ^ n
power_pos n = one-le-pow n 10 (omega arith)

cross_trans : (a b c x y z : ℕ) → 0 < y → a * y ≤ b * x → b * z ≤ c * y → a * z ≤ c * x
cross_trans a b c x y z pos h k =
    let h' : a * y * z ≤ b * x * z = mul-le-mul_right z h in
    let k' : b * z * x ≤ c * y * x = mul-le-mul_right x k in
    let e : y * (a * z) ≤ y * (c * x) = grind arith in le_of_mul-le-mul_left e pos

none_left : (a x : ℕ) → 0 < x → a * x ≡ 0 → a ≡ 0
none_left zero x h e = refl
none_left (suc a) x h e = absurd (grind arith)

abbrev le_signed : Bool → Bool → ℕ → ℕ → Bool
le_signed s t x y = not (lt_signed t s y x)

le_signed_trans :
    (r s t : Bool) (a b c x y z : ℕ)
    → 0 < x
    → 0 < y
    → 0 < z
    → le_signed r s (a * y) (b * x) ≡ true
    → le_signed s t (b * z) (c * y) ≡ true
    → le_signed r t (a * z) (c * x) ≡ true
le_signed_trans false false false a b c x y z p q r h k =
    ground (arith, cross_trans a b c x y z q (ground arith) (ground arith))
le_signed_trans true true true a b c x y z p q r h k =
    ground (arith, cross_trans c b a z y x q (ground arith) (ground arith))
le_signed_trans true true false a b c x y z p q r h k = refl
le_signed_trans true false false a b c x y z p q r h k = refl
le_signed_trans true false true a b c x y z p q r h k =
    let e : c ≡ 0 = none_left c y q (ground arith) in rw e (ground arith)
le_signed_trans false true true a b c x y z p q r h k =
    let e : a ≡ 0 = none_left a y q (ground arith) in
    let f : b ≡ 0 = none_left b x p (ground arith) in
    let g : b * z ≡ 0 = rw f (omega arith) in
    let c0 : c ≡ 0 = none_left c y q (ground (arith, g)) in rw (e, c0) (ground arith)
le_signed_trans false true false a b c x y z p q r h k =
    let e : a ≡ 0 = none_left a y q (ground arith) in rw e (ground arith)
le_signed_trans false false true a b c x y z p q r h k =
    let e : c ≡ 0 = none_left c y q (ground arith) in
    let f : b ≡ 0 = none_left b z r (ground arith) in
    let g : b * x ≡ 0 = rw f (omega arith) in
    let a0 : a ≡ 0 = none_left a y q (ground (arith, g)) in rw (e, a0) (ground arith)

-- The order is transitive, and a smaller amount is at most the greater.
pub le_decimal_trans :
    (a b c : Decimal) → le_decimal a b ≡ true → le_decimal b c ≡ true → le_decimal a c ≡ true
unfolding lt_decimal
le_decimal_trans a b c h k =
    le_signed_trans a.negative b.negative c.negative a.units b.units c.units (10 ^ a.scale)
      (10 ^ b.scale) (10 ^ c.scale) (power_pos a.scale) (power_pos b.scale) (power_pos c.scale) h k

le_signed-of_lt : (s t : Bool) (x y : ℕ) → lt_signed s t x y ≡ true → le_signed s t x y ≡ true
le_signed-of_lt true true x y h = ground arith
le_signed-of_lt true false x y h = refl
le_signed-of_lt false true x y h = cc
le_signed-of_lt false false x y h = ground arith

pub le_decimal-of_lt : (a b : Decimal) → lt_decimal a b ≡ true → le_decimal a b ≡ true
unfolding lt_decimal
le_decimal-of_lt a b h = le_signed-of_lt a.negative b.negative (aligned a b) (aligned b a) h

le_signed_refl : (s : Bool) (x : ℕ) → le_signed s s x x ≡ true
le_signed_refl true x = ground arith
le_signed_refl false x = ground arith

pub le_decimal_refl : (a : Decimal) → le_decimal a a ≡ true
unfolding lt_decimal
le_decimal_refl a = le_signed_refl a.negative (aligned a a)
