-- ===== src/Acquisition/Sources/Raw.antt =====
-- What the extractors share: the checks that `RawProduct` of src/acquire_intel/acquisition/extractor.py
-- declares for its fields, `record_parse` of src/acquire_intel/acquisition/telemetry.py, and what a
-- `parse` hands to the engine.
pub mod Laws
use acquire_intel.Prelude.{
  ℕ, ◌+◌, Bool, Option, none, some, List, [], ◌∷◌, ◌++◌, if◌then◌else◌, Text, codes, strip,
  is_empty, ◌==◌, lstrip_by,
}
use mathlib.Core.List.{reverse}
use acquire_intel.Pipeline.Price.{text}
use acquire_intel.Pipeline.Normalize.{RawProduct}
use acquire_intel.Acquisition.Sources.Json.{Json, null, string, truthy, str, Fields, get}

-- s.rstrip("/")
unfoldable pub rstrip_slashes : Text → Text
unfolding lstrip_by
rstrip_slashes s = reverse (lstrip_by (λ c. c == 47) (reverse s))

-- `text or None`
abbrev pub or_none : Text → Option Text
or_none s = if is_empty s then none else some s

-- `_stringify`
unfoldable pub stringify : (Text → Text) → Json → Option Text
unfolding strip
stringify quoted null = none
stringify quoted j = or_none (strip (str quoted j))

-- A `str` of one character at least, and a `str | None`, as a value is checked against them.
abbrev pub checked_title : Json → Option Text
checked_title (string s) = or_none s
checked_title _ = none

abbrev pub checked_brand : Json → Option (Option Text)
checked_brand null = some none
checked_brand (string s) = some (some s)
checked_brand _ = none

-- The values that are given to `RawProduct`, of which the title and the brand come as they are.
pub record Draft : Type 0 where
  pub external_id : Text
  pub title : Json
  pub url : Text
  pub price : Text
  pub currency : Option Text
  pub in_stock : Option Bool
  pub brand : Json
  pub image_url : Option Text

abbrev with_brand : Draft → Text → Option (Option Text) → Option RawProduct
with_brand d title none = none
with_brand d title (some brand) = some (record {
  external_id = d.external_id;
  title = title;
  url = d.url;
  raw_price = text d.price;
  currency = d.currency;
  in_stock = d.in_stock;
  brand = brand;
  image_url = d.image_url;
})

abbrev with_title : Draft → Option Text → Option RawProduct
with_title d none = none
with_title d (some title) = with_brand d title (checked_brand d.brand)

-- `RawProduct(...)`; `none` is a ValidationError, which the extractors catch.
unfoldable pub raw_product : Draft → Option RawProduct
raw_product d = with_title d (checked_title d.title)

-- f"{base_url}/products/{handle}" if handle else base_url
abbrev pub product_url : (Text → Text) → Text → Json → Text
product_url quoted base_url handle =
    if truthy handle then base_url ++ codes "/products/" ++ str quoted handle else base_url

-- `str(d[key])` if that is truthy.
abbrev pub text_at : (Text → Text) → Fields → Text → Option Text
text_at quoted d key = if truthy (get d key) then some (str quoted (get d key)) else none

-- The first that is there.
abbrev pub or_else : Option Text → Option Text → Option Text
or_else none rest = rest
or_else (some s) rest = some s

-- What a mapping keeps of a list.
abbrev pub kept {ℓ} : {A : Type ℓ} → Option A → List A → List A
kept none rest = rest
kept (some x) rest = x ∷ rest

unfoldable pub mapped_of {ℓ κ} : {A : Type ℓ} {B : Type κ} → (A → Option B) → List A → List B
mapped_of f [] = []
mapped_of f (x ∷ xs) = kept (f x) (mapped_of f xs)

pub record Counts : Type 0 where
  pub entries_seen : ℕ
  pub entries_mapped : ℕ

-- `none` where the spider has no stats collector.
abbrev pub CrawlStats : Type 0
CrawlStats = Option Counts

abbrev pub record_parse : ℕ → ℕ → CrawlStats → CrawlStats
record_parse seen mapped none = none
record_parse seen mapped (some c) =
    some
      (record { entries_seen = c.entries_seen + seen; entries_mapped = c.entries_mapped + mapped })

-- What a call of `parse` yields, the products first, and the stats after it.
pub record Parsed (Request : Type 0) : Type 0 where
  pub products : List RawProduct
  pub follow : Option Request
  pub stats : CrawlStats

-- A response as `parse` reads it: whether it is a TextResponse, what `json()` returns, with `none`
-- for a ValueError, and the page in `meta`.
pub record Response : Type 0 where
  pub is_text : Bool
  pub json : Option Json
  pub page : Option ℕ
