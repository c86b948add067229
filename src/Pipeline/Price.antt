-- ===== src/Pipeline/Price.antt =====
-- `parse_price` of src/acquire_intel/pipeline/normalize.py, with the grammar of Python's `Decimal(text)`.
-- What Unicode says of a character is a parameter. A float comes as the text that `str` prints for it.
pub mod Laws
use acquire_intel.Prelude.{
  ℕ, ◌+◌, ◌-◌, ◌*◌, ◌^◌, Bool, true, false, ◌&&◌, ◌||◌, Option, none, some, List, [], ◌∷◌, ◌++◌,
  leb, ◌==◌, if◌then◌else◌, Text, codes, eqb, strip, is_empty, starts_with, length, drop, show,
  read, ℤ, pos, negsuc,
}
use acquire_intel.Storage.Decimal.{Decimal, zero_amount, lt_decimal}

-- The tables behind `str.upper`, `str.isalpha` and decimal digits.
pub record Unicode : Type 0 where
  pub upper : ℕ → Text
  pub is_alpha : ℕ → Bool
  pub digit : ℕ → Option ℕ

pub data RawPrice : Type 0 where
  text : Text → RawPrice
  int : ℤ → RawPrice
  float : (repr : Text) → RawPrice

pub data NormalizationError : Type 0 where
  unparseable_price non_finite_price negative_price : NormalizationError
  bad_currency empty_title : NormalizationError

-- An exception, or a value.
pub data Result {ℓ} (A : Type ℓ) : Type ℓ where
  raised : NormalizationError → Result A
  returned : A → Result A

-- `str(raw_price)`
abbrev pub printed : RawPrice → Text
printed (text s) = s
printed (int (pos n)) = show n
printed (int (negsuc n)) = 45 ∷ show (n + 1)
printed (float repr) = repr

pub data Value : Type 0 where
  finite : Decimal → Value
  infinite nan : Value

abbrev pub is_digit : ℕ → Bool
is_digit c = leb 48 c && leb c 57

-- Underscores go, and every decimal digit becomes an ASCII one.
abbrev plain_char : ℕ → Option ℕ → ℕ
plain_char c none = c
plain_char c (some d) = 48 + d

plain : Unicode → Text → Text
plain u [] = []
plain u (c ∷ s) =
    let rest = plain u s in
    if c == 95 then rest else if leb c 127 then c ∷ rest else plain_char c (u.digit c) ∷ rest

-- The longest prefix of digits, and the rest.
abbrev with_digit : ℕ → Text × Text → Text × Text
with_digit c (run, rest) = (c ∷ run, rest)

digits : Text → Text × Text
digits [] = ([], [])
digits (c ∷ s) = let more = digits s in if is_digit c then with_digit c more else ([], c ∷ s)

abbrev small : ℕ → ℕ
small c = if leb 65 c && leb c 90 then c + 32 else c

lowered : Text → Text
lowered [] = []
lowered (c ∷ s) = small c ∷ lowered s

-- units * 10 ^ (e - places), and units * 10 ^ -(e + places)
abbrev raised_by : Bool → ℕ → ℕ → ℕ → Value
raised_by negative units places e =
    finite record { negative = negative; units = units * 10 ^ (e - places); scale = places - e }

abbrev lowered_by : Bool → ℕ → ℕ → ℕ → Value
lowered_by negative units places e =
    finite record { negative = negative; units = units; scale = places + e }

-- The digits of an exponent, which end the text.
abbrev exponent_digits : (ℕ → Value) → Text × Text → Option Value
exponent_digits value (run, []) = if is_empty run then none else some (value (read 0 run))
exponent_digits value (run, c ∷ rest) = none

-- The sign at the head of a text, and what follows it.
abbrev sign_split : Text → Bool × Text
sign_split [] = (false, [])
sign_split (c ∷ s) = if c == 45 then (true, s) else if c == 43 then (false, s) else (false, c ∷ s)

abbrev signed_exponent : Bool → ℕ → ℕ → Bool × Text → Option Value
unfolding digits
signed_exponent negative units places (true, s) =
    exponent_digits (lowered_by negative units places) (digits s)
signed_exponent negative units places (false, s) =
    exponent_digits (raised_by negative units places) (digits s)

abbrev exponent : Bool → ℕ → ℕ → Text → Option Value
exponent negative units places [] = some (raised_by negative units places 0)
exponent negative units places (c ∷ s) =
    if c == 101 then signed_exponent negative units places (sign_split s) else none

-- The digits before and after the point; there must be one.
abbrev fraction : Bool → Text → Text × Text → Option Value
fraction negative whole (places, rest) =
    if is_empty whole && is_empty places
    then none
    else exponent negative (read 0 (whole ++ places)) (length places) rest

decimal_part : Bool → Text × Text → Option Value
unfolding digits
decimal_part negative (whole, []) = fraction negative whole ([], [])
decimal_part negative (whole, c ∷ rest) =
    if c == 46
    then fraction negative whole (digits rest)
    else fraction negative whole ([], c ∷ rest)

-- What follows `nan` or `snan` is digits.
nan_payload : Text → Option Value
unfolding digits
nan_payload s = if is_empty (digits s).1 then some nan else none

unsigned : Bool → Text → Option Value
unfolding digits decimal_part nan_payload
unsigned negative s =
    if eqb s (codes "inf") || eqb s (codes "infinity")
    then some infinite
    else if starts_with s (codes "nan")
    then nan_payload (drop 3 s)
    else if starts_with s (codes "snan")
    then nan_payload (drop 4 s)
    else decimal_part negative (digits s)

signed : Bool × Text → Option Value
signed (negative, s) = unsigned negative s

-- `Decimal(s)`; `none` is InvalidOperation.
to_decimal : Unicode → Text → Option Value
to_decimal u s = signed (sign_split (lowered (plain u (strip s))))

abbrev pub checked_amount : Option Value → Result Decimal
checked_amount none = raised unparseable_price
checked_amount (some infinite) = raised non_finite_price
checked_amount (some nan) = raised non_finite_price
checked_amount (some (finite d)) =
    if lt_decimal d zero_amount then raised negative_price else returned d

unfoldable pub parse_price : Unicode → RawPrice → Result Decimal
unfolding to_decimal signed lowered plain unsigned decimal_part nan_payload digits
parse_price u raw_price = checked_amount (to_decimal u (strip (printed raw_price)))
