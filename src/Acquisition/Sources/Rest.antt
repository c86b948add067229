-- ===== src/Acquisition/Sources/Rest.antt =====
-- `DemoRestExtractor` of src/acquire_intel/acquisition/sources/demo_rest.py. A method that yields gives
-- what it yields; log calls are left out.
pub mod Laws
pub mod Crawl
use acquire_intel.Prelude.{
  ℕ, zero, suc, ◌+◌, Bool, true, false, ◌&&◌, ◌||◌, Option, none, some, List, [], ◌∷◌, ◌++◌,
  if◌then◌else◌, Text, codes, show, length, Option-cases,
}
use acquire_intel.Pipeline.Normalize.{RawProduct}
use acquire_intel.Acquisition.Sources.Json.{
  Json, null, array, object, string, Items, nil, cons, Fields, get, get_or, dicts, truthy, str,
}
use acquire_intel.Acquisition.Sources.Raw.{
  rstrip_slashes, or_else, stringify, raw_product, product_url, text_at, mapped_of, CrawlStats,
  record_parse, Parsed, Response,
}

pub record DemoRest : Type 0 where
  pub base_url : Text
  pub page_size : ℕ
  pub default_currency : Text

-- `__init__`
unfoldable pub new_extractor : Text → ℕ → Text → DemoRest
unfolding rstrip_slashes
new_extractor base_url page_size default_currency = record {
  base_url = rstrip_slashes base_url;
  page_size = page_size;
  default_currency = default_currency;
}

-- A request of a page.
pub record PageRequest : Type 0 where
  pub url : Text
  pub page : ℕ

unfoldable pub page_url : DemoRest → ℕ → Text
unfolding show
page_url x page =
    x.base_url ++ codes "/products.json?limit=" ++ show x.page_size ++ codes "&page=" ++ show page

abbrev pub page_request : DemoRest → ℕ → PageRequest
page_request x page = record { url = page_url x page; page = page }

abbrev pub start_requests : DemoRest → PageRequest
start_requests x = page_request x 1

-- `_extract_product_list`
abbrev listed : Json → List Fields
listed (array xs) = dicts xs
listed _ = []

abbrev in_envelope : Option Json → List Fields
in_envelope (some (object d)) = listed (get d (codes "products"))
in_envelope _ = []

unfoldable pub product_list : Response → List Fields
unfolding get dicts
product_list r = if r.is_text then in_envelope r.json else []

-- meta.get("page", 1)
abbrev pub page_of : Option ℕ → ℕ
page_of none = 1
page_of (some page) = page

-- What a crawl has come to: the products, and the stats; `none` where it is cut short.
abbrev pub Crawled : Type 0
Crawled = Option (List RawProduct × CrawlStats)

abbrev pub joined : List RawProduct → Crawled → Crawled
joined out none = none
joined out (some (rest, end)) = some (out ++ rest, end)

abbrev pub continued :
    (PageRequest → CrawlStats → Crawled)
    → List RawProduct
    → CrawlStats
    → Option PageRequest
    → Crawled
continued again out stats none = some (out, stats)
continued again out stats (some q) = joined out (again q stats)

module _ (quoted : Text → Text) where
  abbrev variant_price : Json → Option Text
  variant_price (object d) = stringify quoted (get d (codes "price"))
  variant_price _ = none

  unfoldable pub first_price : Items → Option Text
  unfolding stringify get
  first_price nil = none
  first_price (cons v vs) = or_else (variant_price v) (first_price vs)

  -- `_first_variant_price`
  abbrev pub first_variant_price : Json → Option Text
  first_variant_price (array vs) = first_price vs
  first_variant_price _ = none

  abbrev image_src : Json → Option Text
  image_src (object d) = text_at quoted d (codes "src")
  image_src _ = none

  unfoldable pub first_src : Items → Option Text
  unfolding str get
  first_src nil = none
  first_src (cons i is) = or_else (image_src i) (first_src is)

  -- `_first_image`
  abbrev pub first_image : Json → Option Text
  first_image (array is) = first_src is
  first_image _ = none

  abbrev is_available : Json → Bool
  is_available (object d) = truthy (get d (codes "available"))
  is_available _ = false

  unfoldable pub any_is_available : Items → Bool
  unfolding get
  any_is_available nil = false
  any_is_available (cons v vs) = is_available v || any_is_available vs

  -- `_any_available`
  abbrev pub any_available : Json → Option Bool
  any_available (array nil) = none
  any_available (array (cons v vs)) = some (any_is_available (cons v vs))
  any_available _ = none

  abbrev with_price : DemoRest → Fields → Text → Option Text → Option RawProduct
  with_price x entry external_id none = none
  with_price x entry external_id (some price) = raw_product (record {
    external_id = external_id;
    title = get_or (string []) entry (codes "title");
    url = product_url quoted x.base_url (get entry (codes "handle"));
    price = price;
    currency = none;
    in_stock = any_available (get entry (codes "variants"));
    brand = get entry (codes "vendor");
    image_url = first_image (get entry (codes "images"));
  })

  abbrev with_id : DemoRest → Fields → Option Text → Option RawProduct
  with_id x entry none = none
  with_id x entry (some external_id) =
      with_price x entry external_id (first_variant_price (get entry (codes "variants")))

  -- `_to_raw_product`
  unfoldable pub to_raw_product : DemoRest → Fields → Option RawProduct
  unfolding raw_product stringify get first_price first_src any_is_available
  to_raw_product x entry = with_id x entry (stringify quoted (get entry (codes "id")))

  abbrev pub parsed : DemoRest → ℕ → CrawlStats → List Fields → Parsed PageRequest
  parsed x page stats [] = record { products = []; follow = none; stats = stats }
  parsed x page stats (d ∷ ds) =
      let out = mapped_of (to_raw_product x) (d ∷ ds) in
      record {
        products = out;
        follow = some (page_request x (page + 1));
        stats = record_parse (length (d ∷ ds)) (length out) stats;
      }

  unfoldable pub parse : DemoRest → Response → CrawlStats → Parsed PageRequest
  unfolding product_list mapped_of to_raw_product page_url
  parse x r stats = parsed x (page_of r.page) stats (product_list r)

  -- The engine: each request that `parse` yields is answered and handed to it again.
  unfoldable pub crawl :
      ℕ → DemoRest → (PageRequest → Response) → PageRequest → CrawlStats → Crawled
  unfolding parse
  crawl zero x serve q stats = none
  crawl (suc fuel) x serve q stats =
      let p = parse x (serve q) stats in continued (crawl fuel x serve) p.products p.stats p.follow
