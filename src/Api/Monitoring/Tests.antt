-- ===== src/Api/Monitoring/Tests.antt =====
-- A report on one source.
use acquire_intel.Prelude.{◌≡◌, refl, none, some, [], ◌∷◌, codes, All, builtins}
use acquire_intel.Prelude.Sorting.{sort_by, insert_by}
use acquire_intel.Config.{Settings, defaults}
use acquire_intel.Storage.Models.{CrawlRun, success, Database}
use acquire_intel.Storage.Observations.{where_rows}
use acquire_intel.Storage.Queries.{recent, order_runs}
use acquire_intel.Storage.Listing.{stale_after_for}
use acquire_intel.Acquisition.Orchestrator.{list_ids}
use acquire_intel.Analytics.Health.{
  healthy, classify_source, last_success_at, sum_of, overall_status,
}
use acquire_intel.Analytics.Health.Laws.{Healthy}
use acquire_intel.Api.Monitoring.{budget_of, thresholds_of, points_of, source_health, collect}
use acquire_intel.Api.Monitoring.Laws.{source_health-Healthy}

abbrev settings : Settings
settings = defaults [] [] []

abbrev good_run : CrawlRun
good_run = record {
  id = codes "r1";
  source_id = codes "shop";
  status = success;
  items_ok = 3;
  items_rejected = 0;
  ban_events = 0;
  requests = some 4;
  started_at = 90;
  finished_at = some 95;
}

abbrev store : Database
store = record {
  sources =
      record {
        id = codes "shop";
        kind = codes "rest";
        base_url = codes "https://shop.test";
        stale_after_seconds = 60;
        default_currency = none;
        schedule_seconds = none;
      }
      ∷ [];
  products = [];
  crawl_runs = good_run ∷ [];
  price_observations = [];
  ban_events = [];
}

all_well : (source_health (λ ids. ids) settings 100 store).overall ≡ healthy
unfolding source_health collect list_ids stale_after_for recent order_runs sort_by insert_by
    where_rows classify_source last_success_at sum_of overall_status builtins
all_well = refl

source_health-Healthy_example :
    All
      (λ id.
        Healthy
          (budget_of (thresholds_of (λ ids. ids) store) id)
          100
          settings.health_degraded_ban_rate
          settings.health_fail_ban_rate
          (points_of settings store id))
      (list_ids (λ ids. ids) store)
source_health-Healthy_example = source_health-Healthy (λ ids. ids) settings 100 store all_well
