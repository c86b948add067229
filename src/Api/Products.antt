-- ===== src/Api/Products.antt =====
-- src/acquire_intel/api/products.py: the routes `/products` and `/products/<id>/price-history`, up to the
-- JSON that is printed. Timestamps are seconds; amounts stay decimals.
pub mod Laws
mod Tests
use acquire_intel.Prelude.{
  ℕ, ◌-◌, ◌*◌, max, Bool, true, false, Option, none, some, List, [], ◌∷◌, ◌++◌, map, ltb,
  if◌then◌else◌, Text, codes, eqb, Dict, get, is_empty, ℤ,
}
use acquire_intel.Storage.Decimal.{Decimal}
use acquire_intel.Storage.Models.{Source, Product, PriceObservation, Database}
use acquire_intel.Storage.Products.{get_product}
use acquire_intel.Storage.Observations.{list_for}
use acquire_intel.Storage.Queries.{latest_for_many}
use acquire_intel.Storage.Listing.{get_source, stale_after_for, Sql, list_rows}
use acquire_intel.Pipeline.Normalize.{Money}
use acquire_intel.Api.Problems.{Problem, problem}
use acquire_intel.Api.Limits.{Parsed, refused, parsed, parse_limit}

-- _WINDOW_DAYS; `none` in it is no bound.
abbrev pub window_days : Dict (Option ℕ)
window_days =
    (codes "30d", some 30)
    ∷ (codes "90d", some 90)
    ∷ (codes "180d", some 180)
    ∷ (codes "365d", some 365)
    ∷ (codes "all", none)
    ∷ []

abbrev pub invalid_window : Problem
invalid_window =
    problem 400 (codes "Invalid window") (codes "window must be one of: 30d, 90d, 180d, 365d, all")

abbrev pub since_of : ℕ → Option (Option ℕ) → Parsed (Option ℕ)
since_of now none = refused invalid_window
since_of now (some none) = parsed none
since_of now (some (some days)) = parsed (some (now - days * 86400))

-- `_window_since`
unfoldable pub window_since : Text → ℕ → Parsed (Option ℕ)
unfolding get eqb
window_since raw now = since_of now (get window_days raw)

-- `_is_stale`
abbrev pub is_stale : ℕ → Option ℕ → ℕ → Bool
is_stale data_as_of none now = false
is_stale data_as_of (some budget) now = ltb budget (now - data_as_of)

-- max(values, default)
unfoldable pub max_from : ℕ → List ℕ → ℕ
max_from best [] = best
max_from best (n ∷ ns) = max_from (max best n) ns

abbrev pub max_or : ℕ → List ℕ → ℕ
max_or default [] = default
max_or default (n ∷ ns) = max_from n ns

abbrev pub max_or_none : List ℕ → Option ℕ
max_or_none [] = none
max_or_none (n ∷ ns) = some (max_from n ns)

abbrev pub values {ℓ} : {V : Type ℓ} → Dict V → List V
values [] = []
values ((k, v) ∷ d) = v ∷ values d

pub record ProductOut : Type 0 where
  pub id : Text
  pub source_id : Text
  pub title : Text
  pub brand : Option Text
  pub url : Text
  pub image_url : Option Text
  pub latest_price : Option Money
  pub in_stock : Option Bool
  pub last_seen_at : ℕ

abbrev price_of : Option PriceObservation → Option Money
price_of none = none
price_of (some obs) = some (record { amount = obs.amount; currency = obs.currency })

abbrev stock_of : Option PriceObservation → Option Bool
stock_of none = none
stock_of (some obs) = obs.in_stock

-- `_product_out`
abbrev pub product_out : Product → Option PriceObservation → ProductOut
product_out row latest = record {
  id = row.id;
  source_id = row.source_id;
  title = row.title;
  brand = row.brand;
  url = row.url;
  image_url = row.image_url;
  latest_price = price_of latest;
  in_stock = stock_of latest;
  last_seen_at = row.last_seen_at;
}

pub record ProductsResponse : Type 0 where
  pub data_as_of : ℕ
  pub stale : Bool
  pub products : List ProductOut

-- The arguments of the query string.
pub record ListArgs : Type 0 where
  pub source : Option Text
  pub q : Option Text
  pub limit : Option Text

-- `text or None`
abbrev pub filled : Option Text → Option Text
filled none = none
filled (some s) = if is_empty s then none else some s

abbrev pub shown : ℕ → Database → List Product → ProductsResponse
shown now db rows =
    let data_as_of = max_or now (map (λ (r : Product). r.last_seen_at) rows) in
    let latest = latest_for_many (map (λ (r : Product). r.id) rows) db in
    let thresholds = stale_after_for (map (λ (r : Product). r.source_id) rows) db in
    record {
      data_as_of = data_as_of;
      stale = is_stale data_as_of (max_or_none (values thresholds)) now;
      products = map (λ (r : Product). product_out r (get latest r.id)) rows;
    }

abbrev pub listed : Sql → ListArgs → ℕ → Database → Parsed ℕ → Parsed ProductsResponse
listed sql args now db (refused p) = refused p
listed sql args now db (parsed limit) =
    parsed (shown now db (list_rows sql (filled args.source) (filled args.q) limit db))

-- `list_products`
unfoldable pub list_products :
    (Text → Option ℤ) → Sql → ListArgs → ℕ → Database → Parsed ProductsResponse
unfolding parse_limit list_rows latest_for_many stale_after_for max_from get
list_products int_of sql args now db =
    listed sql args now db (parse_limit int_of 24 1 100 args.limit)

pub record PriceHistoryResponse : Type 0 where
  pub data_as_of : ℕ
  pub stale : Bool
  pub product_id : Text
  pub observations : List PriceObservation

abbrev pub no_such_product : (Text → Text) → Text → Problem
no_such_product quoted product_id =
    problem 404 (codes "Product not found") (codes "No product with id " ++ quoted product_id)

abbrev pub threshold_of : Option Source → Option ℕ
threshold_of none = none
threshold_of (some source) = some source.stale_after_seconds

abbrev pub history_of : Text → ℕ → Database → Product → List PriceObservation → PriceHistoryResponse
history_of product_id now db product observations =
    let data_as_of =
      max_or product.last_seen_at (map (λ (o : PriceObservation). o.captured_at) observations) in
    record {
      data_as_of = data_as_of;
      stale = is_stale data_as_of (threshold_of (get_source product.source_id db.sources)) now;
      product_id = product_id;
      observations = observations;
    }

abbrev pub found :
    (Text → Text) → Text → Option ℕ → ℕ → Database → Option Product → Parsed PriceHistoryResponse
found quoted product_id since now db none = refused (no_such_product quoted product_id)
found quoted product_id since now db (some product) =
    parsed (history_of product_id now db product (list_for product_id since db))

abbrev pub in_window :
    (Text → Text) → Text → ℕ → Database → Parsed (Option ℕ) → Parsed PriceHistoryResponse
in_window quoted product_id now db (refused p) = refused p
in_window quoted product_id now db (parsed since) =
    found quoted product_id since now db (get_product product_id db.products)

-- args.get("window", "90d")
abbrev pub window_or : Option Text → Text
window_or none = codes "90d"
window_or (some raw) = raw

-- `price_history`
unfoldable pub price_history :
    (Text → Text) → Text → Option Text → ℕ → Database → Parsed PriceHistoryResponse
unfolding window_since get_product list_for get_source max_from
price_history quoted product_id window now db =
    in_window quoted product_id now db (window_since (window_or window) now)
