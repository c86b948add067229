-- ===== src/Api/Monitoring.antt =====
-- src/acquire_intel/api/monitoring.py: the routes `/health/sources` and `/metrics`, up to the rounding of
-- rates and the JSON that is printed. The order that the database gives ids is a parameter.
pub mod Laws
mod Tests
use acquire_intel.Prelude.{ℕ, ◌-◌, Option, none, some, List, [], ◌∷◌, map, Text, codes, Dict, get}
use acquire_intel.Prelude.Ratio.{Ratio}
use acquire_intel.Config.{Settings}
use acquire_intel.Storage.Models.{CrawlRun, Database}
use acquire_intel.Storage.Queries.{recent}
use acquire_intel.Storage.Listing.{stale_after_for}
use acquire_intel.Storage.Tallies.{
  or_zero, or_empty, status_counts_by_source, kind_counts_by_source, action_totals,
}
use acquire_intel.Acquisition.Orchestrator.{list_ids}
use acquire_intel.Analytics.Health.{
  RunPoint, HealthStatus, SourceHealthSummary, classify_source, overall_status,
}

-- `_run_point`
abbrev pub run_point : CrawlRun → RunPoint
run_point run = record {
  status = run.status;
  started_at = run.started_at;
  finished_at = run.finished_at;
  items_ok = run.items_ok;
  items_rejected = run.items_rejected;
  ban_events = run.ban_events;
  requests = or_zero run.requests;
}

abbrev first_of : List CrawlRun → Option CrawlRun
first_of [] = none
first_of (run ∷ runs) = some run

-- A source's runs as the classifier is given them, and its budget.
abbrev pub points_of : Settings → Database → Text → List RunPoint
points_of cfg db source_id = map run_point (recent source_id cfg.health_recent_runs db)

abbrev pub budget_of : Dict ℕ → Text → ℕ
budget_of thresholds source_id = or_zero (get thresholds source_id)

abbrev pub summary_of : Settings → ℕ → Database → Dict ℕ → Text → SourceHealthSummary
summary_of cfg now db thresholds source_id =
    classify_source source_id (points_of cfg db source_id) (budget_of thresholds source_id) now
      cfg.health_degraded_ban_rate cfg.health_fail_ban_rate

abbrev pub thresholds_of : (List Text → List Text) → Database → Dict ℕ
thresholds_of order db = stale_after_for (list_ids order db) db

-- `_collect`
unfoldable pub collect :
    (List Text → List Text) → Settings → ℕ → Database → List (SourceHealthSummary × Option CrawlRun)
unfolding list_ids stale_after_for recent classify_source get
collect order cfg now db =
    map
      (λ source_id. (
        summary_of cfg now db (thresholds_of order db) source_id,
        first_of (recent source_id cfg.health_recent_runs db),
      ))
      (list_ids order db)

pub record SourceHealthResponse : Type 0 where
  pub overall : HealthStatus
  pub sources : List SourceHealthSummary

abbrev pub summaries : List (SourceHealthSummary × Option CrawlRun) → List SourceHealthSummary
summaries collected = map (λ (c : SourceHealthSummary × Option CrawlRun). c.0) collected

abbrev pub statuses : List SourceHealthSummary → List HealthStatus
statuses sources = map (λ (s : SourceHealthSummary). s.status) sources

-- `source_health`
unfoldable pub source_health :
    (List Text → List Text) → Settings → ℕ → Database → SourceHealthResponse
unfolding collect overall_status
source_health order cfg now db =
    let sources = summaries (collect order cfg now db) in
    record { overall = overall_status (statuses sources); sources = sources }

pub record SourceMetrics : Type 0 where
  pub source : Text
  pub status : HealthStatus
  pub crawl_runs_total : Dict ℕ
  pub items_ok : ℕ
  pub items_rejected : ℕ
  pub ban_events_total : Dict ℕ
  pub ban_rate : Option Ratio
  pub staleness_seconds : Option ℕ

pub record Metrics : Type 0 where
  pub generated_at : ℕ
  pub sources : List SourceMetrics
  pub identity : ℕ
  pub proxy : ℕ

abbrev count_in : (CrawlRun → ℕ) → Option CrawlRun → ℕ
count_in f none = 0
count_in f (some run) = f run

abbrev age_of : ℕ → Option ℕ → Option ℕ
age_of now none = none
age_of now (some t) = some (now - t)

abbrev pub metrics_of : ℕ → Database → SourceHealthSummary × Option CrawlRun → SourceMetrics
metrics_of now db (summary, latest) = record {
  source = summary.source;
  status = summary.status;
  crawl_runs_total = or_empty (get (status_counts_by_source db) summary.source);
  items_ok = count_in (λ run. run.items_ok) latest;
  items_rejected = count_in (λ run. run.items_rejected) latest;
  ban_events_total = or_empty (get (kind_counts_by_source db) summary.source);
  ban_rate = summary.ban_rate;
  staleness_seconds = age_of now summary.last_success_at;
}

-- `metrics`
unfoldable pub metrics : (List Text → List Text) → Settings → ℕ → Database → Metrics
unfolding collect status_counts_by_source kind_counts_by_source action_totals get
metrics order cfg now db = record {
  generated_at = now;
  sources = map (metrics_of now db) (collect order cfg now db);
  identity = or_zero (get (action_totals db) (codes "rotate_identity"));
  proxy = or_zero (get (action_totals db) (codes "rotate_proxy"));
}
