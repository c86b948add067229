-- ===== src/Api/Dashboard/Agreement.antt =====
-- How the dashboard and the health report agree on staleness, though the one looks at ten runs of a
-- source and the other at as many as the settings say.
use acquire_intel.Prelude.{
  ℕ, zero, suc, ◌-◌, ◌≤◌, ◌≡◌, ◌≢◌, refl, sym, ◌∙◌, true, false, Option, none, some, List, [], ◌∷◌,
  map, take, is_empty, ltb, Text, Dict, get, arith,
}
use acquire_intel.Config.{Settings}
use acquire_intel.Storage.Models.{CrawlRun, Database}
use acquire_intel.Storage.Queries.{recent}
use acquire_intel.Analytics.Health.{healthy, stale, commit_time, or_later, last_success_at}
use acquire_intel.Analytics.Health.Laws.{
  classify_source-stale, classify_source-current, summarize_source-age,
}
use acquire_intel.Api.Monitoring.{run_point, budget_of, points_of, summary_of}
use acquire_intel.Api.Dashboard.{recent_runs, panel_point, panel_points, panel_entry}

or_later_mono :
    (c a b : Option ℕ) (t : ℕ)
    → (a ≡ some t → b ≡ some t)
    → or_later c a ≡ some t
    → or_later c b ≡ some t
or_later_mono none a b t more h = more h
or_later_mono (some u) a b t more h = h

-- A last commit among the first runs is the last commit among more of them.
longer :
    (n m : ℕ) (runs : List CrawlRun) (t : ℕ)
    → n ≤ m
    → last_success_at (map run_point (take n runs)) ≡ some t
    → last_success_at (map panel_point (take m runs)) ≡ some t
unfolding last_success_at
longer zero m runs t h e = cc
longer (suc n) zero runs t h e = absurd (omega arith)
longer (suc n) (suc m) [] t h e = cc
longer (suc n) (suc m) (r ∷ runs) t h e =
    or_later_mono (commit_time (run_point r)) _ _ t (longer n m runs t (omega arith)) e

module _ (cfg : Settings) (now : ℕ) (db : Database) (thresholds : Dict ℕ) (source_id : Text)
    (budget : ℕ) (window : cfg.health_recent_runs ≤ recent_runs)
    (has_budget : get thresholds source_id ≡ some budget) where
  seen_by_both :
      (t : ℕ)
      → last_success_at (points_of cfg db source_id) ≡ some t
      → last_success_at (panel_points db source_id) ≡ some t
  unfolding recent
  seen_by_both t e = longer cfg.health_recent_runs recent_runs _ t window e

  not_both : false ≡ true → ⊥
  not_both e = cc

  panel_age :
      (t : ℕ)
      → last_success_at (panel_points db source_id) ≡ some t
      → (panel_entry now db thresholds source_id).is_stale ≡ ltb budget (now - t)
  panel_age t e =
      rw has_budget (summarize_source-age source_id (panel_points db source_id) budget now _ t e)

  in_budget : (t : ℕ) → ltb budget (now - t) ≡ ltb (budget_of thresholds source_id) (now - t)
  in_budget t = rw has_budget refl

  -- For a source that has a budget and runs to look at, and a report that looks at no more runs than the
  -- ten of the dashboard: a source that the report calls stale is marked stale on the dashboard
  -- as well, and one that the dashboard marks is never called healthy by the report.
  pub staleness_agrees :
      is_empty (points_of cfg db source_id) ≡ false
      → ((summary_of cfg now db thresholds source_id).status ≡ stale
          → (panel_entry now db thresholds source_id).is_stale ≡ true)
        × ((panel_entry now db thresholds source_id).is_stale ≡ true
            → (summary_of cfg now db thresholds source_id).status ≢ healthy)
  staleness_agrees some_runs = (
    (λ h.
        let (t, last, old) =
          classify_source-stale source_id (points_of cfg db source_id) _ now _ _ some_runs h in
        panel_age t (seen_by_both t last) ∙ in_budget t ∙ old),
    λ marked h.
        let (t, last, young) =
          classify_source-current source_id (points_of cfg db source_id) _ now _ _ h in
        not_both (sym (panel_age t (seen_by_both t last) ∙ in_budget t ∙ young) ∙ marked),
  )
