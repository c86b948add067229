-- ===== src/Api/Dashboard/Tests.antt =====
-- The panel of a source that has run once.
use acquire_intel.Prelude.{
  ℕ, ◌≡◌, ◌≢◌, refl, true, false, some, [], ◌∷◌, codes, get, is_empty, Dict, arith, builtins,
}
use acquire_intel.Prelude.Sorting.{sort_by, insert_by}
use acquire_intel.Config.{Settings, defaults}
use acquire_intel.Storage.Models.{CrawlRun, success, Database}
use acquire_intel.Storage.Products.{get_product}
use acquire_intel.Storage.Observations.{where_rows}
use acquire_intel.Storage.Queries.{recent, order_runs}
use acquire_intel.Analytics.Health.{healthy, stale, classify_source, last_success_at, sum_of}
use acquire_intel.Api.Monitoring.{points_of, summary_of}
use acquire_intel.Api.Dashboard.{product_detail, not_found, total_of, panel_entry}
use acquire_intel.Api.Dashboard.Agreement.{staleness_agrees}

unknown_product :
    product_detail (defaults [] [] []) (codes "shop:7") 5 (record {
      sources = [];
      products = [];
      crawl_runs = [];
      price_observations = [];
      ban_events = [];
    })
    ≡ not_found (codes "shop:7")
unfolding product_detail get_product
unknown_product = refl

rotations :
    total_of
      ((codes "rotate_proxy", 2) ∷ (codes "flag", 9) ∷ [])
      (codes "rotate_identity" ∷ codes "rotate_proxy" ∷ [])
    ≡ 2
unfolding total_of builtins
rotations = refl

abbrev settings : Settings
settings = defaults [] [] []

abbrev good_run : CrawlRun
good_run = record {
  id = codes "r1";
  source_id = codes "shop";
  status = success;
  items_ok = 3;
  items_rejected = 0;
  ban_events = 0;
  requests = some 4;
  started_at = 90;
  finished_at = some 95;
}

abbrev one_run : Database
one_run = record {
  sources = [];
  products = [];
  crawl_runs = good_run ∷ [];
  price_observations = [];
  ban_events = [];
}

abbrev budgets : Dict ℕ
budgets = (codes "shop", 60) ∷ []

has_budget : get budgets (codes "shop") ≡ some 60
unfolding builtins
has_budget = refl

has_run : is_empty (points_of settings one_run (codes "shop")) ≡ false
unfolding recent order_runs sort_by insert_by where_rows builtins
has_run = refl

staleness_agrees_example :
    ((summary_of settings 200 one_run budgets (codes "shop")).status ≡ stale
      → (panel_entry 200 one_run budgets (codes "shop")).is_stale ≡ true)
    × ((panel_entry 200 one_run budgets (codes "shop")).is_stale ≡ true
        → (summary_of settings 200 one_run budgets (codes "shop")).status ≢ healthy)
staleness_agrees_example =
    staleness_agrees settings 200 one_run budgets (codes "shop") 60 (omega arith) has_budget has_run

stale_after_100 : (summary_of settings 200 one_run budgets (codes "shop")).status ≡ stale
unfolding recent order_runs sort_by insert_by where_rows classify_source last_success_at sum_of
    builtins
stale_after_100 = refl
