-- ===== src/Pipeline/Price/Laws.antt =====
-- Which prices `parse_price` reads.
use acquire_intel.Prelude.{
  ℕ, ◌+◌, ◌≤◌, ◌≡◌, ◌≢◌, refl, subst, sym, ap, ◌∙◌, Bool, true, false, Option, none, some, [], ◌∷◌,
  arith, Text, strip, strip_by, lstrip_by, is_space, is_blank, eqb, starts_with, All, All-append,
  All-imp, IsDigit, show, show-IsDigit, show-nonempty, read, read-show, Bool-cases, inl, inr, ℤ,
  pos, negsuc,
}
use acquire_intel.Storage.Decimal.{Decimal, decimal, zero_amount, lt_decimal}
use acquire_intel.Pipeline.Price.{
  Unicode, RawPrice, text, int, Result, raised, returned, negative_price, Value, parse_price,
  checked_amount, to_decimal, plain, lowered, digits, sign_split, signed, unsigned, decimal_part,
  printed,
}
use mathlib.Core.List.{reverse, reverse-cons, reverse-reverse, append-nil}

-- A character that a literal may hold and that every stage leaves alone.
abbrev IsInk : ℕ → Type 0
IsInk c = (is_space c ≡ false) × (c ≤ 127)

All-reverse : (s : Text) → All IsInk s → All IsInk (reverse s)
All-reverse [] h = h
All-reverse (c ∷ s) h =
    rw reverse-cons (All-append IsInk (reverse s) (c ∷ []) (All-reverse s h.1) (h.0, tt))

lstrip_by-ink : (s : Text) → All IsInk s → lstrip_by is_space s ≡ s
unfolding lstrip_by
lstrip_by-ink [] h = refl
lstrip_by-ink (c ∷ s) h = rw h.0.0 refl

strip-ink : (s : Text) → All IsInk s → strip s ≡ s
unfolding strip strip_by
strip-ink s h =
    rw (lstrip_by-ink s h, lstrip_by-ink (reverse s) (All-reverse s h)) (reverse-reverse s)

digit-IsInk : (c : ℕ) → IsDigit c → IsInk c
unfolding is_space is_blank
digit-IsInk c h = ground arith

plain-digits : (u : Unicode) (s : Text) → All IsDigit s → plain u s ≡ s
unfolding plain
plain-digits u [] h = refl
plain-digits u (c ∷ s) h = ground (arith, plain-digits u s)

lowered-digits : (s : Text) → All IsDigit s → lowered s ≡ s
unfolding lowered
lowered-digits [] h = refl
lowered-digits (c ∷ s) h = ground (arith, lowered-digits s)

digits-All : (s : Text) → All IsDigit s → digits s ≡ (s, [])
unfolding digits
digits-All [] h = refl
digits-All (c ∷ s) h = rw (digits-All s h.1) (ground arith)

unsigned-digits :
    (negative : Bool) (c : ℕ) (s : Text)
    → All IsDigit (c ∷ s)
    → unsigned negative (c ∷ s)
      ≡ some (Value.finite record { negative = negative; units = read 0 (c ∷ s); scale = 0 })
unfolding unsigned decimal_part eqb starts_with
unsigned-digits negative c s h = ground (arith, digits-All (c ∷ s) h, append-nil s)

sign_split-digit : (c : ℕ) (s : Text) → IsDigit c → sign_split (c ∷ s) ≡ (false, c ∷ s)
sign_split-digit c s h = ground arith

to_decimal-digits :
    (u : Unicode) (c : ℕ) (s : Text)
    → All IsDigit (c ∷ s)
    → to_decimal u (c ∷ s) ≡ some (Value.finite (decimal (read 0 (c ∷ s)) 0))
unfolding to_decimal signed
to_decimal-digits u c s h =
    rw
      (
        strip-ink (c ∷ s) (All-imp IsDigit IsInk (c ∷ s) digit-IsInk h),
        plain-digits u (c ∷ s) h,
        lowered-digits (c ∷ s) h,
        sign_split-digit c s h.0,
      )
      (unsigned-digits false c s h)

minus-IsInk : IsInk 45
unfolding is_space is_blank
minus-IsInk = (refl, omega arith)

plain-minus : (u : Unicode) (s : Text) → plain u (45 ∷ s) ≡ 45 ∷ plain u s
unfolding plain
plain-minus u s = refl

lowered-minus : (s : Text) → lowered (45 ∷ s) ≡ 45 ∷ lowered s
unfolding lowered
lowered-minus s = refl

to_decimal-minus :
    (u : Unicode) (c : ℕ) (s : Text)
    → All IsDigit (c ∷ s)
    → to_decimal u (45 ∷ c ∷ s)
      ≡ some (Value.finite record { negative = true; units = read 0 (c ∷ s); scale = 0 })
unfolding to_decimal signed
to_decimal-minus u c s h =
    rw
      (
        strip-ink (45 ∷ c ∷ s) (minus-IsInk, All-imp IsDigit IsInk (c ∷ s) digit-IsInk h),
        plain-minus,
        lowered-minus,
        plain-digits u (c ∷ s) h,
        lowered-digits (c ∷ s) h,
      )
      (unsigned-digits true c s h)

-- What an integer price becomes.
abbrev pub amount_of : ℤ → Result Decimal
amount_of (pos n) = returned (decimal n 0)
amount_of (negsuc n) = raised negative_price

checked-plus : (n : ℕ) → checked_amount (some (Value.finite (decimal n 0))) ≡ returned (decimal n 0)
unfolding lt_decimal
checked-plus n = ground arith

checked-minus :
    (n : ℕ)
    → n ≢ 0
    → checked_amount (some (Value.finite record { negative = true; units = n; scale = 0 }))
      ≡ raised negative_price
unfolding lt_decimal
checked-minus n h = ground arith

parse_price-stages :
    (u : Unicode) (price : RawPrice)
    → parse_price u price ≡ checked_amount (to_decimal u (strip (printed price)))
unfolding parse_price
parse_price-stages u price = refl

parse_price-digits :
    (u : Unicode) (c : ℕ) (s : Text)
    → All IsDigit (c ∷ s)
    → parse_price u (text (c ∷ s)) ≡ returned (decimal (read 0 (c ∷ s)) 0)
parse_price-digits u c s h =
    rw
      (
        parse_price-stages,
        strip-ink (c ∷ s) (All-imp IsDigit IsInk (c ∷ s) digit-IsInk h),
        to_decimal-digits u c s h,
      )
      (checked-plus (read 0 (c ∷ s)))

parse_price-minus :
    (u : Unicode) (c : ℕ) (s : Text)
    → All IsDigit (c ∷ s)
    → read 0 (c ∷ s) ≢ 0
    → parse_price u (text (45 ∷ c ∷ s)) ≡ raised negative_price
parse_price-minus u c s h n =
    rw
      (
        parse_price-stages,
        strip-ink (45 ∷ c ∷ s) (minus-IsInk, All-imp IsDigit IsInk (c ∷ s) digit-IsInk h),
        to_decimal-minus u c s h,
      )
      (checked-minus (read 0 (c ∷ s)) n)

parse_price-shown : (u : Unicode) (n : ℕ) → parse_price u (text (show n)) ≡ returned (decimal n 0)
parse_price-shown u n =
    let (c, s, e) = show-nonempty n in
    rw e (parse_price-digits u c s (subst (All IsDigit) e (show-IsDigit n)))
    ∙ ap (λ (k : ℕ). returned (decimal k 0)) (ap (read 0) (sym e) ∙ read-show n)

parse_price-negated :
    (u : Unicode) (n : ℕ) → parse_price u (text (45 ∷ show (n + 1))) ≡ raised negative_price
parse_price-negated u n =
    let (c, s, e) = show-nonempty (n + 1) in
    rw e (
      parse_price-minus u c s (subst (All IsDigit) e (show-IsDigit (n + 1)))
        (λ z. omega (arith, sym (read-show (n + 1)) ∙ ap (read 0) e ∙ z)))

parse_price-int : (u : Unicode) (z : ℤ) → parse_price u (int z) ≡ amount_of z
parse_price-int u (pos n) =
    parse_price-stages u (int (pos n))
    ∙ sym (parse_price-stages u (text (show n)))
    ∙ parse_price-shown u n
parse_price-int u (negsuc n) =
    parse_price-stages u (int (negsuc n))
    ∙ sym (parse_price-stages u (text (45 ∷ show (n + 1))))
    ∙ parse_price-negated u n

-- A text of decimal digits is read as the number that they spell. An integer price is read as
-- itself, and a negative one is refused.
pub parse_price-whole :
    (u : Unicode)
    → ((c : ℕ) (s : Text)
        → All IsDigit (c ∷ s)
        → parse_price u (text (c ∷ s)) ≡ returned (decimal (read 0 (c ∷ s)) 0))
      × ((z : ℤ) → parse_price u (int z) ≡ amount_of z)
parse_price-whole u = (parse_price-digits u, parse_price-int u)

checked_amount-nonnegative :
    (o : Option Value) (d : Decimal)
    → checked_amount o ≡ returned d
    → lt_decimal d zero_amount ≡ false
checked_amount-nonnegative none d e = cc
checked_amount-nonnegative (some Value.infinite) d e = cc
checked_amount-nonnegative (some Value.nan) d e = cc
checked_amount-nonnegative (some (Value.finite c)) d e =
    elim (Bool-cases (lt_decimal c zero_amount)) [ inl f ↦ ground arith | inr f ↦ ground arith ]

-- A price that is read is not negative.
pub parse_price-nonnegative :
    (u : Unicode) (price : RawPrice) (d : Decimal)
    → parse_price u price ≡ returned d
    → lt_decimal d zero_amount ≡ false
unfolding parse_price
parse_price-nonnegative u price d e =
    checked_amount-nonnegative (to_decimal u (strip (printed price))) d e
