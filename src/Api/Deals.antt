-- ===== src/Api/Deals.antt =====
-- The route `/deals` of src/acquire_intel/api/deals.py, up to the JSON that is printed.
use acquire_intel.Prelude.{
  ℕ, ◌-◌, ◌*◌, Bool, Option, none, some, List, [], ◌∷◌, map, Text, Dict, get, ℤ,
}
use acquire_intel.Config.{Settings}
use acquire_intel.Storage.Models.{Product, PriceObservation, Database}
use acquire_intel.Storage.Queries.{history_since}
use acquire_intel.Storage.Listing.{get_many, stale_after_for}
use acquire_intel.Pipeline.Normalize.{Money}
use acquire_intel.Analytics.Deals.{PricePoint, DealResult, rank_deals}
use acquire_intel.Api.Limits.{Parsed, refused, parsed, parse_limit}
use acquire_intel.Api.Products.{ProductOut, is_stale, max_or, max_or_none, values, filled}

abbrev point_of : PriceObservation → PricePoint
point_of o = record {
  amount = o.amount;
  currency = o.currency;
  at = o.captured_at;
  in_stock = o.in_stock;
}

abbrev histories_of : Dict (List PriceObservation) → Dict (List PricePoint)
histories_of [] = []
histories_of ((id, observations) ∷ rest) = (id, map point_of observations) ∷ histories_of rest

pub record DealOut : Type 0 where
  pub product : ProductOut
  pub previous_price : Money
  pub current_price : Money
  pub drop_pct : ℕ
  pub since : ℕ

abbrev deal_out : DealResult → Product → DealOut
deal_out d row =
    let current : Money = record { amount = d.current_amount; currency = d.current_currency } in
    record {
      product = record {
        id = row.id;
        source_id = row.source_id;
        title = row.title;
        brand = row.brand;
        url = row.url;
        image_url = row.image_url;
        latest_price = some current;
        in_stock = d.current_in_stock;
        last_seen_at = row.last_seen_at;
      };
      previous_price = record { amount = d.previous_amount; currency = d.previous_currency };
      current_price = current;
      drop_pct = d.drop_pct;
      since = d.since;
    }

-- A deal whose product has no row is left out.
abbrev with_row : DealResult → Option Product → List DealOut → List DealOut
with_row d none rest = rest
with_row d (some row) rest = deal_out d row ∷ rest

unfoldable pub deals_out : Dict Product → List DealResult → List DealOut
unfolding get
deals_out products [] = []
deals_out products (d ∷ deals) = with_row d (get products d.product_id) (deals_out products deals)

abbrev source_of : Option Product → List Text → List Text
source_of none rest = rest
source_of (some row) rest = row.source_id ∷ rest

unfoldable pub sources_of : Dict Product → List DealResult → List Text
unfolding get
sources_of products [] = []
sources_of products (d ∷ deals) = source_of (get products d.product_id) (sources_of products deals)

pub record DealsResponse : Type 0 where
  pub data_as_of : ℕ
  pub stale : Bool
  pub deals : List DealOut

abbrev pub shown : ℕ → Database → List DealResult → DealsResponse
shown now db results =
    let products = get_many (map (λ (d : DealResult). d.product_id) results) db in
    let thresholds = stale_after_for (sources_of products results) db in
    let data_as_of = max_or now (map (λ (d : DealResult). d.current_at) results) in
    record {
      data_as_of = data_as_of;
      stale = is_stale data_as_of (max_or_none (values thresholds)) now;
      deals = deals_out products results;
    }

abbrev listed : Settings → Option Text → ℕ → Database → Parsed ℕ → Parsed DealsResponse
listed cfg source now db (refused p) = refused p
listed cfg source now db (parsed limit) =
    let since = now - cfg.deal_window_days * 86400 in
    let histories = histories_of (history_since (filled source) (some since) db) in
    parsed (shown now db (rank_deals histories cfg.deal_min_drop_pct limit))

-- `list_deals`
unfoldable pub list_deals :
    (Text → Option ℤ) → Settings → Option Text → Option Text → ℕ → Database → Parsed DealsResponse
unfolding parse_limit history_since rank_deals get_many stale_after_for deals_out sources_of
list_deals int_of cfg source limit now db =
    listed cfg source now db (parse_limit int_of 20 1 50 limit)
