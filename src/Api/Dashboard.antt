-- ===== src/Api/Dashboard.antt =====
-- src/acquire_intel/api/dashboard.py: the two views, up to the templates that print them. The order
-- that the database gives ids is a parameter.
pub mod Laws
pub mod Agreement
mod Tests
use acquire_intel.Prelude.{
  ℕ, ◌+◌, Bool, true, false, ◌||◌, Option, none, some, List, [], ◌∷◌, map, Text, codes, Dict, get,
  any_of,
}
use acquire_intel.Config.{Settings}
use acquire_intel.Storage.Models.{CrawlRun, Product, PriceObservation, Database}
use acquire_intel.Storage.Products.{get_product}
use acquire_intel.Storage.Queries.{recent, latest_for_many}
use acquire_intel.Storage.Listing.{get_source, Sql, list_rows}
use acquire_intel.Storage.Tallies.{or_zero, counts_by_action}
use acquire_intel.Acquisition.Orchestrator.{list_ids}
use acquire_intel.Analytics.Health.{RunPoint, SourceHealth, summarize_source}
use acquire_intel.Api.Products.{is_stale, max_from, max_or_none, threshold_of}
use acquire_intel.Api.Monitoring.{thresholds_of}

-- _ROTATION_ACTIONS
abbrev rotation_actions : List Text
rotation_actions = codes "rotate_identity" ∷ codes "rotate_proxy" ∷ []

-- _RECENT_RUNS
abbrev pub recent_runs : ℕ
recent_runs = 10

-- _PRODUCT_LIMIT
abbrev pub product_limit : ℕ
product_limit = 60

-- sum(actions.get(a, 0) for a in names)
unfoldable pub total_of : Dict ℕ → List Text → ℕ
total_of actions [] = 0
total_of actions (a ∷ names) = or_zero (get actions a) + total_of actions names

-- A run as the panel counts it: the field `requests` keeps its default.
abbrev pub panel_point : CrawlRun → RunPoint
panel_point run = record {
  status = run.status;
  started_at = run.started_at;
  finished_at = run.finished_at;
  items_ok = run.items_ok;
  items_rejected = run.items_rejected;
  ban_events = run.ban_events;
  requests = 0;
}

abbrev pub panel_points : Database → Text → List RunPoint
panel_points db source_id = map panel_point (recent source_id recent_runs db)

abbrev rotations_of : Database → Text → ℕ
rotations_of db source_id =
    let run_ids = map (λ (r : CrawlRun). r.id) (recent source_id recent_runs db) in
    total_of (counts_by_action run_ids db) rotation_actions

abbrev pub panel_entry : ℕ → Database → Dict ℕ → Text → SourceHealth
panel_entry now db thresholds source_id =
    summarize_source source_id (panel_points db source_id) (rotations_of db source_id)
      (get thresholds source_id) now

-- `_health_panel`
unfoldable pub health_panel : (List Text → List Text) → ℕ → Database → List SourceHealth
unfolding list_ids total_of counts_by_action recent summarize_source get
health_panel order now db = map (panel_entry now db (thresholds_of order db)) (list_ids order db)

-- What `dashboard.html` is given.
pub record Overview : Type 0 where
  pub health : List SourceHealth
  pub rows : List (Product × Option PriceObservation)
  pub data_as_of : Option ℕ
  pub stale : Bool

-- `overview`
unfoldable pub overview : (List Text → List Text) → Sql → ℕ → Database → Overview
unfolding health_panel list_rows latest_for_many max_from any_of get
overview order sql now db =
    let health = health_panel order now db in
    let products = list_rows sql none none product_limit db in
    let latest = latest_for_many (map (λ (p : Product). p.id) products) db in
    record {
      health = health;
      rows = map (λ (p : Product). (p, get latest p.id)) products;
      data_as_of = max_or_none (map (λ (p : Product). p.last_seen_at) products);
      stale = any_of (λ (h : SourceHealth). h.is_stale) health;
    }

-- `not_found.html` with the status 404, or `product.html`.
pub data Page : Type 0 where
  not_found : (product_id : Text) → Page
  product_page :
      (product : Product) (latest : Option PriceObservation) (stale : Bool) (api_base_path : Text)
      → Page

abbrev detail_of : Settings → ℕ → Database → Text → Option Product → Page
detail_of cfg now db product_id none = not_found product_id
detail_of cfg now db product_id (some product) =
    product_page product (get (latest_for_many (product_id ∷ []) db) product_id)
      (is_stale product.last_seen_at (threshold_of (get_source product.source_id db.sources)) now)
      cfg.api_base_path

-- `product_detail`
unfoldable pub product_detail : Settings → Text → ℕ → Database → Page
unfolding get_product latest_for_many get_source get
product_detail cfg product_id now db =
    detail_of cfg now db product_id (get_product product_id db.products)
