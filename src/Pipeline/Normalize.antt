-- ===== src/Pipeline/Normalize.antt =====
-- `normalize` of src/acquire_intel/pipeline/normalize.py: an extractor's raw product to a product and an
-- observation. `RawProduct` is that of src/acquire_intel/acquisition/extractor.py less `extra`, which
-- nothing reads.
pub mod Laws
use acquire_intel.Prelude.{
  ℕ, ◌+◌, ◌-◌, Bool, true, false, ◌&&◌, ◌||◌, not, Option, none, some, List, [], ◌∷◌, ◌++◌, leb,
  ◌==◌, if◌then◌else◌, Text, codes, strip, is_empty, length,
}
use acquire_intel.Storage.Decimal.{Decimal}
use acquire_intel.Storage.Models.{PriceObservation}
use acquire_intel.Pipeline.Price.{
  Unicode, RawPrice, Result, raised, returned, bad_currency, parse_price,
}
use acquire_intel.Pipeline.Title.{normalize_title}

pub record RawProduct : Type 0 where
  pub external_id : Text
  pub title : Text
  pub url : Text
  pub raw_price : RawPrice
  pub currency : Option Text
  pub in_stock : Option Bool
  pub brand : Option Text
  pub image_url : Option Text

-- `Money` and `Product` of src/acquire_intel/contracts.py.
pub record Money : Type 0 where
  pub amount : Decimal
  pub currency : Text

pub record Product : Type 0 where
  pub id : Text
  pub source_id : Text
  pub external_id : Text
  pub title : Text
  pub url : Text
  pub brand : Option Text
  pub image_url : Option Text
  pub latest_price : Option Money
  pub in_stock : Option Bool
  pub first_seen_at : ℕ
  pub last_seen_at : ℕ

pub record NormalizedItem : Type 0 where
  pub product : Product
  pub observation : PriceObservation

abbrev pub canonical_product_id : Text → Text → Text
canonical_product_id source_id external_id = source_id ++ 58 ∷ external_id

-- `c.upper()` and `c.isalpha()` of a character.
abbrev upper_char : Unicode → ℕ → Text
upper_char u c = if leb c 127 then (if leb 97 c && leb c 122 then c - 32 else c) ∷ [] else u.upper c

abbrev pub is_alpha_char : Unicode → ℕ → Bool
is_alpha_char u c =
    if leb c 127 then (leb 65 c && leb c 90) || (leb 97 c && leb c 122) else u.is_alpha c

unfoldable pub upper : Unicode → Text → Text
upper u [] = []
upper u (c ∷ s) = upper_char u c ++ upper u s

-- Whether all characters are letters.
unfoldable pub all_alpha : Unicode → Text → Bool
all_alpha u [] = true
all_alpha u (c ∷ s) = is_alpha_char u c && all_alpha u s

-- `first or second`
abbrev pub or_text : Option Text → Text → Text
or_text none second = second
or_text (some first) second = if is_empty first then second else first

abbrev checked_currency : Unicode → Text → Result Text
checked_currency u candidate =
    if not (length candidate == 3) || not (all_alpha u candidate)
    then raised bad_currency
    else returned candidate

unfoldable pub resolve_currency : Unicode → Option Text → Option Text → Result Text
unfolding upper all_alpha strip
resolve_currency u raw_currency default_currency =
    checked_currency u (upper u (strip (or_text raw_currency (or_text default_currency []))))

-- What the run adds to every item.
pub record Capture : Type 0 where
  pub source_id : Text
  pub run_id : Text
  pub captured_at : ℕ
  pub default_currency : Option Text

abbrev item_of : RawProduct → Capture → Decimal → Text → Text → NormalizedItem
item_of raw at amount currency title =
    let product_id = canonical_product_id at.source_id raw.external_id in
    record {
      product = record {
        id = product_id;
        source_id = at.source_id;
        external_id = raw.external_id;
        title = title;
        url = raw.url;
        brand = raw.brand;
        image_url = raw.image_url;
        latest_price = some (record { amount = amount; currency = currency });
        in_stock = raw.in_stock;
        first_seen_at = at.captured_at;
        last_seen_at = at.captured_at;
      };
      observation = record {
        product_id = product_id;
        source_id = at.source_id;
        run_id = at.run_id;
        amount = amount;
        currency = currency;
        in_stock = raw.in_stock;
        captured_at = at.captured_at;
      };
    }

-- An exception of one step ends the rest.
abbrev pub and_then {ℓ κ} : {A : Type ℓ} {B : Type κ} → Result A → (A → Result B) → Result B
and_then (raised e) f = raised e
and_then (returned x) f = f x

unfoldable pub normalize : Unicode → RawProduct → Capture → Result NormalizedItem
unfolding resolve_currency
normalize u raw at = and_then (parse_price u raw.raw_price) (λ amount.
    and_then (resolve_currency u raw.currency at.default_currency) (λ currency.
      and_then (normalize_title raw.title)
        (λ title. returned (item_of raw at amount currency title))))
