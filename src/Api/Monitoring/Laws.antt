-- ===== src/Api/Monitoring/Laws.antt =====
-- What it takes for the report to call everything healthy.
use acquire_intel.Prelude.{
  ℕ, Option, ◌≤◌, ◌≡◌, refl, List, [], ◌∷◌, Text, All, All-imp, All-of_map, ap, arith,
}
use acquire_intel.Config.{Settings}
use acquire_intel.Storage.Models.{CrawlRun, Database}
use acquire_intel.Acquisition.Orchestrator.{list_ids}
use acquire_intel.Analytics.Health.{
  HealthStatus, healthy, stale, degraded, failing, severity, SourceHealthSummary, overall_status,
}
use acquire_intel.Analytics.Health.Laws.{Healthy, classify_source-healthy, overall_status-worst}
use acquire_intel.Api.Monitoring.{
  points_of, budget_of, thresholds_of, collect, source_health, statuses, summaries,
}

severity-healthy : (s : HealthStatus) → severity s ≤ 0 → s ≡ healthy
severity-healthy healthy h = refl
severity-healthy degraded h = absurd (omega arith)
severity-healthy stale h = absurd (omega arith)
severity-healthy failing h = absurd (omega arith)

all_healthy : (ss : List HealthStatus) → overall_status ss ≡ healthy → All (λ s. s ≡ healthy) ss
all_healthy [] e = tt
all_healthy (s ∷ ss) e =
    All-imp _ _ (s ∷ ss) (λ x b. severity-healthy x (omega (arith, b, ap severity e)))
      (overall_status-worst s ss).0

-- If the report calls the sources healthy as a whole, every registered source is so by itself: its
-- newest run has neither failed nor been partial, quarantined or flagged, the ban rate over its
-- recent runs is below both limits, and one of these has committed within the source's budget.
pub source_health-Healthy :
    (order : List Text → List Text) (cfg : Settings) (now : ℕ) (db : Database)
    → (source_health order cfg now db).overall ≡ healthy
    → All
        (λ id.
          Healthy
            (budget_of (thresholds_of order db) id)
            now
            cfg.health_degraded_ban_rate
            cfg.health_fail_ban_rate
            (points_of cfg db id))
        (list_ids order db)
unfolding source_health collect
source_health-Healthy order cfg now db e =
    let ids = list_ids order db in
    let collected = collect order cfg now db in
    let each = all_healthy (statuses (summaries collected)) e in
    All-imp _ _ ids
      (λ id h.
        classify_source-healthy id (points_of cfg db id) (budget_of (thresholds_of order db) id) now
          cfg.health_degraded_ban_rate cfg.health_fail_ban_rate h)
      (All-of_map _ (λ (c : SourceHealthSummary × Option CrawlRun). c.0.status ≡ healthy) ids
        (All-of_map (λ (c : SourceHealthSummary × Option CrawlRun). c.0)
          (λ (s : SourceHealthSummary). s.status ≡ healthy) collected
          (All-of_map (λ (s : SourceHealthSummary). s.status) (λ t. t ≡ healthy)
            (summaries collected) each)))
