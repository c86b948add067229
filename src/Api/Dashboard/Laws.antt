-- ===== src/Api/Dashboard/Laws.antt =====
-- What the overview tells about fresh sources.
use acquire_intel.Prelude.{
  ℕ, ◌-◌, ◌≤◌, ◌≡◌, refl, Bool, false, ◌||◌, Option, none, some, List, [], ◌∷◌, Text, get, All,
  All-imp, All-of_map, any_of, arith,
}
use acquire_intel.Storage.Models.{Database}
use acquire_intel.Storage.Listing.{Sql}
use acquire_intel.Acquisition.Orchestrator.{list_ids}
use acquire_intel.Analytics.Health.{
  RunPoint, SourceHealth, last_success_at, is_over_budget, summarize_source,
}
use acquire_intel.Analytics.Health.Laws.{HasCommit, last_success_at-HasCommit}
use acquire_intel.Api.Monitoring.{thresholds_of}
use acquire_intel.Api.Dashboard.{panel_points, panel_entry, health_panel, overview}

or_none : (a b : Bool) → (a || b) ≡ false → (a ≡ false) × (b ≡ false)
or_none a b e = (ground arith, ground arith)

any_of-none :
    {A : Type 0} (test : A → Bool) (xs : List A)
    → any_of test xs ≡ false
    → All (λ x. test x ≡ false) xs
unfolding any_of
any_of-none test [] e = tt
any_of-none test (x ∷ xs) e =
    let (h, hs) = or_none (test x) (any_of test xs) e in (h, any_of-none test xs hs)

-- A source with a budget has no run, or one that has committed within the budget.
abbrev pub Fresh : ℕ → Option ℕ → List RunPoint → Type 0
Fresh now none runs = Unit
Fresh now (some budget) [] = Unit
Fresh now (some budget) (r ∷ runs) = (t : ℕ) × HasCommit (r ∷ runs) t × (now - t ≤ budget)

within_budget :
    (now budget : ℕ) (runs : List RunPoint) (last : Option ℕ)
    → last_success_at runs ≡ last
    → is_over_budget now (some budget) last ≡ false
    → (t : ℕ) × HasCommit runs t × (now - t ≤ budget)
within_budget now budget runs none e h = cc
within_budget now budget runs (some t) e h =
    (t, last_success_at-HasCommit runs t e, ground (arith, h))

summarize_source-Fresh :
    (source : Text) (runs : List RunPoint) (rotations : ℕ) (budget : Option ℕ) (now : ℕ)
    → (summarize_source source runs rotations budget now).is_stale ≡ false
    → Fresh now budget runs
unfolding summarize_source
summarize_source-Fresh source runs rotations none now h = tt
summarize_source-Fresh source [] rotations (some budget) now h = tt
summarize_source-Fresh source (r ∷ runs) rotations (some budget) now h =
    within_budget now budget (r ∷ runs) (last_success_at (r ∷ runs)) refl h

-- If the overview shows no staleness, each registered source that has a budget and a run has one
-- among its last ten runs that has committed within the budget.
pub overview-Fresh :
    (order : List Text → List Text) (sql : Sql) (now : ℕ) (db : Database)
    → (overview order sql now db).stale ≡ false
    → All
        (λ id. Fresh now (get (thresholds_of order db) id) (panel_points db id))
        (list_ids order db)
unfolding overview health_panel
overview-Fresh order sql now db e =
    let ids = list_ids order db in
    let each = any_of-none (λ (h : SourceHealth). h.is_stale) (health_panel order now db) e in
    All-imp _ _ ids (λ id h. summarize_source-Fresh id (panel_points db id) _ _ now h)
      (All-of_map (panel_entry now db (thresholds_of order db)) (λ h. h.is_stale ≡ false) ids each)
