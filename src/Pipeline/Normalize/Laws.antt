-- ===== src/Pipeline/Normalize/Laws.antt =====
-- What every normalized item satisfies.
use acquire_intel.Prelude.{
  ◌≡◌, refl, subst, true, false, Option, some, [], ◌==◌, ==_iff, Text, length, Bool-cases, inl, inr,
  ◌≢◌, arith, strip,
}
use acquire_intel.Storage.Decimal.{Decimal, zero_amount, lt_decimal}
use acquire_intel.Pipeline.Price.{Unicode, Result, raised, returned, parse_price}
use acquire_intel.Pipeline.Price.Laws.{parse_price-nonnegative}
use acquire_intel.Pipeline.Title.{normalize_title, normalize_title_idem}
use acquire_intel.Pipeline.Normalize.{
  RawProduct, NormalizedItem, Capture, canonical_product_id, all_alpha, or_text, checked_currency,
  upper, resolve_currency, normalize, item_of, and_then,
}

-- The item is what the run and the raw product say, with one id for both parts, an amount that is not
-- negative, a currency of three letters and a clean title.
pub record IsCanonical (u : Unicode) (raw : RawProduct) (at : Capture) (item : NormalizedItem)
    : Type 0 where
  pub product_id : item.product.id ≡ canonical_product_id at.source_id raw.external_id
  pub observation_id : item.observation.product_id ≡ item.product.id
  pub run : item.observation.run_id ≡ at.run_id
  pub captured : item.observation.captured_at ≡ at.captured_at
  pub first_seen : item.product.first_seen_at ≡ at.captured_at
  pub price :
      item.product.latest_price
      ≡ some (record { amount = item.observation.amount; currency = item.observation.currency })
  pub amount : lt_decimal item.observation.amount zero_amount ≡ false
  pub currency :
      (length item.observation.currency ≡ 3) × (all_alpha u item.observation.currency ≡ true)
  pub title :
      (item.product.title ≢ []) × (normalize_title item.product.title ≡ returned item.product.title)

checked_currency-letters :
    (u : Unicode) (s c : Text)
    → checked_currency u s ≡ returned c
    → (length c ≡ 3) × (all_alpha u c ≡ true)
checked_currency-letters u s c e = elim (Bool-cases (length s == 3)) [
  | inl f ↦ elim (Bool-cases (all_alpha u s)) [
    | inl g ↦
        subst (λ (t : Text). (length t ≡ 3) × (all_alpha u t ≡ true)) (ground arith)
          ((==_iff (length s) 3).0 f, g)
    | inr g ↦ ground arith
  ]
  | inr f ↦ ground arith
]

resolve_currency-letters :
    (u : Unicode) (raw default : Option Text) (c : Text)
    → resolve_currency u raw default ≡ returned c
    → (length c ≡ 3) × (all_alpha u c ≡ true)
unfolding resolve_currency
resolve_currency-letters u raw default c e =
    checked_currency-letters u (upper u (strip (or_text raw (or_text default [])))) c e

-- A computation that returns has returned from its first part.
and_then-returned {ℓ κ} :
    {A : Type ℓ} {B : Type κ} (r : Result A) (f : A → Result B) (y : B)
    → and_then r f ≡ returned y
    → (x : A) × (r ≡ returned x) × (f x ≡ returned y)
and_then-returned (raised e) f y h = cc
and_then-returned (returned x) f y h = (x, refl, h)

item_of-IsCanonical :
    (u : Unicode) (raw : RawProduct) (at : Capture) (amount : Decimal) (currency title : Text)
    → lt_decimal amount zero_amount ≡ false
    → (length currency ≡ 3) × (all_alpha u currency ≡ true)
    → (title ≢ []) × (normalize_title title ≡ returned title)
    → IsCanonical u raw at (item_of raw at amount currency title)
item_of-IsCanonical u raw at amount currency title a c t = record {
  product_id = refl;
  observation_id = refl;
  run = refl;
  captured = refl;
  first_seen = refl;
  price = refl;
  amount = a;
  currency = c;
  title = t;
}

returned-injective {ℓ} : {A : Type ℓ} (x y : A) → returned x ≡ returned y → x ≡ y
returned-injective x y e = cc

-- Every item that `normalize` returns is canonical: one id for both parts, made of the source and the
-- external id; the run's id and time; an amount that is not negative; a currency of three letters; and
-- a title that is not empty and that normalizing again would not change.
pub normalize-IsCanonical :
    (u : Unicode) (raw : RawProduct) (at : Capture) (item : NormalizedItem)
    → normalize u raw at ≡ returned item
    → IsCanonical u raw at item
unfolding normalize
normalize-IsCanonical u raw at item e =
    let (amount, ea, e1) = and_then-returned (parse_price u raw.raw_price) _ item e in
    let (currency, ec, e2) =
      and_then-returned (resolve_currency u raw.currency at.default_currency) _ item e1 in
    let (title, et, e3) = and_then-returned (normalize_title raw.title) _ item e2 in
    subst (IsCanonical u raw at) (returned-injective (item_of raw at amount currency title) item e3)
      (item_of-IsCanonical u raw at amount currency title
        (parse_price-nonnegative u raw.raw_price amount ea)
        (resolve_currency-letters u raw.currency at.default_currency currency ec)
        (normalize_title_idem raw.title title et))
