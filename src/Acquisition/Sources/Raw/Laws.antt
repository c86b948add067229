-- ===== src/Acquisition/Sources/Raw/Laws.antt =====
-- What the shared helpers of the extractors guarantee of the products that they let by.
use acquire_intel.Prelude.{
  ◌≡◌, ◌≤◌, ◌+◌, ap, ◌∙◌, refl, false, Option, none, some, List, [], ◌∷◌, ◌++◌, length, is_empty,
  All, Text, arith, strip,
}
use acquire_intel.Pipeline.Price.{text}
use acquire_intel.Pipeline.Normalize.{RawProduct}
use acquire_intel.Acquisition.Sources.Json.{
  Json, null, bool, int, float, string, array, object, str,
}
use acquire_intel.Acquisition.Sources.Raw.{
  or_none, or_else, stringify, checked_title, checked_brand, Draft, raw_product, kept, mapped_of,
  with_title, with_brand,
}

-- What comes out, if anything does, has the property.
abbrev pub Yields {ℓ κ} : {A : Type ℓ} → (A → Type κ) → Option A → Type κ
Yields P none = Unit
Yields P (some a) = P a

abbrev pub IsFilled : Text → Type 0
IsFilled s = is_empty s ≡ false

pub or_none-IsFilled : (s : Text) → Yields IsFilled (or_none s)
or_none-IsFilled [] = tt
or_none-IsFilled (c ∷ s) = refl

pub stringify-IsFilled : (quoted : Text → Text) (j : Json) → Yields IsFilled (stringify quoted j)
unfolding stringify
stringify-IsFilled quoted null = tt
stringify-IsFilled quoted (bool b) = or_none-IsFilled (strip (str quoted (bool b)))
stringify-IsFilled quoted (int n) = or_none-IsFilled (strip (str quoted (int n)))
stringify-IsFilled quoted (float r z) = or_none-IsFilled (strip (str quoted (float r z)))
stringify-IsFilled quoted (string s) = or_none-IsFilled (strip (str quoted (string s)))
stringify-IsFilled quoted (array xs) = or_none-IsFilled (strip (str quoted (array xs)))
stringify-IsFilled quoted (object d) = or_none-IsFilled (strip (str quoted (object d)))

checked_title-IsFilled : (j : Json) → Yields IsFilled (checked_title j)
checked_title-IsFilled null = tt
checked_title-IsFilled (bool b) = tt
checked_title-IsFilled (int n) = tt
checked_title-IsFilled (float r z) = tt
checked_title-IsFilled (string s) = or_none-IsFilled s
checked_title-IsFilled (array xs) = tt
checked_title-IsFilled (object d) = tt

-- A product that is no garbage: it has an id, a title and the text of a price.
pub record IsSound (r : RawProduct) : Type 0 where
  pub id_filled : IsFilled r.external_id
  pub title_filled : IsFilled r.title
  pub price : Text
  pub priced : r.raw_price ≡ text price
  pub price_filled : IsFilled price

with_brand-IsSound :
    (d : Draft) (title : Text)
    → IsFilled d.external_id
    → IsFilled d.price
    → IsFilled title
    → (o : Option (Option Text)) → Yields IsSound (with_brand d title o)
with_brand-IsSound d title i p t none = tt
with_brand-IsSound d title i p t (some b) = record {
  id_filled = i;
  title_filled = t;
  price = d.price;
  priced = refl;
  price_filled = p;
}

with_title-IsSound :
    (d : Draft)
    → IsFilled d.external_id
    → IsFilled d.price
    → (o : Option Text) → Yields IsFilled o
    → Yields IsSound (with_title d o)
with_title-IsSound d i p none t = tt
with_title-IsSound d i p (some title) t = with_brand-IsSound d title i p t (checked_brand d.brand)

pub raw_product-IsSound :
    (d : Draft) → IsFilled d.external_id → IsFilled d.price → Yields IsSound (raw_product d)
unfolding raw_product
raw_product-IsSound d i p =
    with_title-IsSound d i p (checked_title d.title) (checked_title-IsFilled d.title)

pub or_else-IsFilled :
    (o rest : Option Text)
    → Yields IsFilled o
    → Yields IsFilled rest
    → Yields IsFilled (or_else o rest)
or_else-IsFilled none rest h k = k
or_else-IsFilled (some s) rest h k = h

module _ {ℓ} {B : Type ℓ} where
  kept-All :
      (P : B → Type 0) (o : Option B) (ys : List B) → Yields P o → All P ys → All P (kept o ys)
  kept-All P none ys h hs = hs
  kept-All P (some y) ys h hs = (h, hs)

  length-kept-le : (o : Option B) (ys : List B) → length (kept o ys) ≤ 1 + length ys
  length-kept-le none ys = omega arith
  length-kept-le (some y) ys = omega arith

  kept-append : (o : Option B) (xs ys : List B) → kept o (xs ++ ys) ≡ kept o xs ++ ys
  kept-append none xs ys = refl
  kept-append (some x) xs ys = refl

module _ {ℓ κ} {A : Type ℓ} {B : Type κ} (f : A → Option B) where
  pub mapped_of-All :
      (P : B → Type 0) → ((x : A) → Yields P (f x)) → (xs : List A) → All P (mapped_of f xs)
  unfolding mapped_of
  mapped_of-All P h [] = tt
  mapped_of-All P h (x ∷ xs) = kept-All P (f x) (mapped_of f xs) (h x) (mapped_of-All P h xs)

  pub length-mapped_of-le : (xs : List A) → length (mapped_of f xs) ≤ length xs
  unfolding mapped_of
  length-mapped_of-le [] = omega arith
  length-mapped_of-le (x ∷ xs) =
      omega (arith, length-kept-le (f x) (mapped_of f xs), length-mapped_of-le xs)

  pub mapped_of-append :
      (xs ys : List A) → mapped_of f (xs ++ ys) ≡ mapped_of f xs ++ mapped_of f ys
  unfolding mapped_of
  mapped_of-append [] ys = refl
  mapped_of-append (x ∷ xs) ys =
      ap (kept (f x)) (mapped_of-append xs ys) ∙ kept-append (f x) (mapped_of f xs) (mapped_of f ys)
