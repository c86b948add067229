-- ===== src/Acquisition/Sources/Html.antt =====
-- `DemoHtmlExtractor` of src/acquire_intel/acquisition/sources/demo_html.py. What the CSS selectors find
-- in the page is the argument: a card is what they find in one card. `urljoin` is a parameter.
pub mod Laws
use acquire_intel.Prelude.{
  Bool, true, false, ◌||◌, Option, none, some, List, [], ◌∷◌, ◌++◌, if◌then◌else◌, Text, codes, eqb,
  strip, length, is_empty,
}
use acquire_intel.Resilience.Classifier.{lower}
use acquire_intel.Pipeline.Normalize.{RawProduct}
use acquire_intel.Acquisition.Sources.Json.{Json, null, string}
use acquire_intel.Acquisition.Sources.Raw.{
  rstrip_slashes, or_none, raw_product, mapped_of, CrawlStats, record_parse,
}

pub record DemoHtml : Type 0 where
  pub base_url : Text
  pub default_currency : Text

-- `__init__`
unfoldable pub new_extractor : Text → Text → DemoHtml
unfolding rstrip_slashes
new_extractor base_url default_currency = record {
  base_url = rstrip_slashes base_url;
  default_currency = default_currency;
}

-- `_listing_url`
abbrev pub listing_url : DemoHtml → Text
listing_url x = x.base_url ++ codes "/collections/all"

pub record Card : Type 0 where
  pub product_id : Option Text
  pub title : Option Text
  pub price : Option Text
  pub href : Option Text
  pub currency : Option Text
  pub in_stock : Option Text
  pub brand : Option Text
  pub image_src : Option Text

-- `_clean`
unfoldable pub clean : Option Text → Option Text
unfolding strip
clean none = none
clean (some value) = or_none (strip value)

-- No letter beyond ASCII has a letter of these words as its lower case.
abbrev stock_of : Text → Option Bool
stock_of lowered =
    if eqb lowered (codes "true") || (eqb lowered (codes "1") || eqb lowered (codes "yes"))
    then some true
    else if eqb lowered (codes "false") || (eqb lowered (codes "0") || eqb lowered (codes "no"))
    then some false
    else none

-- `_parse_stock`
unfoldable pub parse_stock : Option Text → Option Bool
unfolding strip lower eqb
parse_stock none = none
parse_stock (some value) = stock_of (lower (strip value))

-- A brand as `RawProduct` is given it.
abbrev brand_value : Option Text → Json
brand_value none = null
brand_value (some brand) = string brand

module _ (urljoin : Text → Text → Text) where
  -- urljoin(f"{base_url}/", href) if href else base_url
  abbrev card_url : Text → Option Text → Text
  card_url base_url none = base_url
  card_url base_url (some href) =
      if is_empty href then base_url else urljoin (base_url ++ codes "/") href

  abbrev with_fields : Text → Card → Option Text → Option Text → Option Text → Option RawProduct
  with_fields base_url card (some external_id) (some title) (some price) = raw_product (record {
    external_id = external_id;
    title = string title;
    url = card_url base_url card.href;
    price = price;
    currency = clean card.currency;
    in_stock = parse_stock card.in_stock;
    brand = brand_value (clean card.brand);
    image_url = card.image_src;
  })
  with_fields base_url card _ _ _ = none

  -- `_card_to_raw`
  unfoldable pub card_to_raw : Text → Card → Option RawProduct
  unfolding raw_product clean parse_stock
  card_to_raw base_url card =
      with_fields base_url card (clean card.product_id) (clean card.title) (clean card.price)

  unfoldable pub parse_products : List Card → Text → List RawProduct
  unfolding mapped_of card_to_raw
  parse_products cards base_url = mapped_of (card_to_raw base_url) cards

  -- What `parse` yields for a page with these cards, and the stats after it.
  unfoldable pub parse : DemoHtml → List Card → CrawlStats → List RawProduct × CrawlStats
  unfolding parse_products
  parse x cards stats =
      let products = parse_products cards x.base_url in
      (products, record_parse (length cards) (length products) stats)
