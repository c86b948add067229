-- ===== src/Analytics/Health/Laws.antt =====
-- When a source is called healthy or stale, and the roll-up.
use acquire_intel.Prelude.{
  ℕ, zero, suc, ◌-◌, ◌≤◌, ◌≡◌, refl, subst, sym, ◌⊎◌, inl, inr, Bool, true, false, ◌||◌, Option,
  none, some, List, [], ◌∷◌, is_empty, ltb, ltb→lt, if◌then◌else◌, Text, get_elem?, All, Bool-cases,
  arith,
}
use acquire_intel.Prelude.Ratio.{Ratio}
use acquire_intel.Analytics.Health.{
  HealthStatus, healthy, stale, severity, RunPoint, commit_time, last_success_at, summarize_source,
  ban_rate_of, reaches, status_of, is_failed, is_degraded_status, is_outdated, is_none, or_later,
  classify_source, worst_from, overall_status,
}

-- A run of the list that has committed, with its finish.
abbrev pub HasCommit : List RunPoint → ℕ → Type 0
HasCommit runs t = (i : ℕ) × (r : RunPoint) × (get_elem? runs i ≡ some r) × (commit_time r ≡ some t)

or_later-cases : (a b : Option ℕ) (t : ℕ) → or_later a b ≡ some t → (a ≡ some t) ⊎ (b ≡ some t)
or_later-cases none b t h = inr h
or_later-cases (some u) b t h = inl h

pub last_success_at-HasCommit :
    (runs : List RunPoint) (t : ℕ) → last_success_at runs ≡ some t → HasCommit runs t
unfolding last_success_at
last_success_at-HasCommit [] t h = cc
last_success_at-HasCommit (r ∷ runs) t h =
    elim (or_later-cases (commit_time r) (last_success_at runs) t h) [
      | inl e ↦ (0, r, refl, e)
      | inr e ↦ let (i, q, at, done) = last_success_at-HasCommit runs t e in (suc i, q, at, done)
    ]

-- What makes a source healthy, all of it.
pub record Healthy (budget now : ℕ) (d f : Ratio) (runs : List RunPoint) : Type 0 where
  pub latest : RunPoint
  pub is_latest : get_elem? runs 0 ≡ some latest
  pub not_failed : is_failed latest.status ≡ false
  pub not_degraded : is_degraded_status latest.status ≡ false
  pub few_bans : (reaches f (ban_rate_of runs) ≡ false) × (reaches d (ban_rate_of runs) ≡ false)
  pub fresh : (t : ℕ) × HasCommit runs t × (now - t ≤ budget)

status_of-healthy :
    (a b c : Bool) → status_of a b c ≡ healthy → (a ≡ false) × (b ≡ false) × (c ≡ false)
status_of-healthy true b c h = cc
status_of-healthy false true c h = cc
status_of-healthy false false true h = cc
status_of-healthy false false false h = (refl, refl, refl)

or-false : (a b : Bool) → (a || b) ≡ false → (a ≡ false) × (b ≡ false)
or-false true b h = cc
or-false false b h = (refl, h)

fresh_commit :
    (runs : List RunPoint) (budget now : ℕ) (last : Option ℕ)
    → last_success_at runs ≡ last
    → is_outdated now budget last ≡ false
    → is_none last ≡ false
    → (t : ℕ) × HasCommit runs t × (now - t ≤ budget)
fresh_commit runs budget now none e o n = cc
fresh_commit runs budget now (some t) e o n =
    (t, last_success_at-HasCommit runs t e, ground (arith, o))

-- A source is called healthy only if it has runs, the newest has neither failed nor been partial,
-- quarantined or flagged, the ban rate is below both limits, and some run has committed within the
-- staleness budget.
pub classify_source-healthy :
    (source : Text) (runs : List RunPoint) (budget now : ℕ) (d f : Ratio)
    → (classify_source source runs budget now d f).status ≡ healthy
    → Healthy budget now d f runs
unfolding classify_source
classify_source-healthy source [] budget now d f h = cc
classify_source-healthy source (latest ∷ runs) budget now d f h =
    let (fails, outdated, noisy) = status_of-healthy _ _ _ h in
    let (ok, few) = or-false _ _ fails in
    let (clean, rest) = or-false _ _ noisy in
    let (fewer, some_commit) = or-false _ _ rest in
    record {
      latest = latest;
      is_latest = refl;
      not_failed = ok;
      not_degraded = clean;
      few_bans = (few, fewer);
      fresh = fresh_commit (latest ∷ runs) budget now _ refl outdated some_commit;
    }

status_of-stale : (a b c : Bool) → status_of a b c ≡ stale → b ≡ true
status_of-stale true b c h = cc
status_of-stale false true c h = refl
status_of-stale false false true h = cc
status_of-stale false false false h = cc

healthy-commit :
    (source : Text) (r : RunPoint) (runs : List RunPoint) (budget now : ℕ) (d f : Ratio)
    → (classify_source source (r ∷ runs) budget now d f).status ≡ healthy
    → (is_outdated now budget (last_success_at (r ∷ runs)) ≡ false)
      × (is_none (last_success_at (r ∷ runs)) ≡ false)
unfolding classify_source
healthy-commit source r runs budget now d f h =
    let (fails, outdated, noisy) = status_of-healthy _ _ _ h in
    let (clean, rest) = or-false _ _ noisy in
    let (fewer, some_commit) = or-false _ _ rest in (outdated, some_commit)

outdated_at :
    (now budget : ℕ) (last : Option ℕ)
    → is_outdated now budget last ≡ true
    → (t : ℕ) × (last ≡ some t) × (ltb budget (now - t) ≡ true)
outdated_at now budget none h = cc
outdated_at now budget (some t) h = (t, refl, h)

current_at :
    (now budget : ℕ) (last : Option ℕ)
    → is_outdated now budget last ≡ false
    → is_none last ≡ false
    → (t : ℕ) × (last ≡ some t) × (ltb budget (now - t) ≡ false)
current_at now budget none h n = cc
current_at now budget (some t) h n = (t, refl, h)

-- A source with runs that is called stale has a last commit, and it is too old.
pub classify_source-stale :
    (source : Text) (runs : List RunPoint) (budget now : ℕ) (d f : Ratio)
    → is_empty runs ≡ false
    → (classify_source source runs budget now d f).status ≡ stale
    → (t : ℕ) × (last_success_at runs ≡ some t) × (ltb budget (now - t) ≡ true)
unfolding classify_source
classify_source-stale source [] budget now d f n h = cc
classify_source-stale source (r ∷ runs) budget now d f n h =
    outdated_at now budget (last_success_at (r ∷ runs)) (status_of-stale _ _ _ h)

-- A source that is called healthy has a last commit within the budget.
pub classify_source-current :
    (source : Text) (runs : List RunPoint) (budget now : ℕ) (d f : Ratio)
    → (classify_source source runs budget now d f).status ≡ healthy
    → (t : ℕ) × (last_success_at runs ≡ some t) × (ltb budget (now - t) ≡ false)
classify_source-current source [] budget now d f h = unfold classify_source in cc
classify_source-current source (r ∷ runs) budget now d f h =
    let (outdated, some_commit) = healthy-commit source r runs budget now d f h in
    current_at now budget (last_success_at (r ∷ runs)) outdated some_commit

-- The dashboard goes by the age of the last commit that it sees.
pub summarize_source-age :
    (source : Text) (runs : List RunPoint) (budget now rotations t : ℕ)
    → last_success_at runs ≡ some t
    → (summarize_source source runs rotations (some budget) now).is_stale ≡ ltb budget (now - t)
unfolding summarize_source last_success_at
summarize_source-age source [] budget now rotations t e = cc
summarize_source-age source (r ∷ runs) budget now rotations t e = rw e refl

worst_from-step :
    (best s : HealthStatus) (statuses : List HealthStatus) (b : Bool)
    → ltb (severity best) (severity s) ≡ b
    → worst_from best (s ∷ statuses) ≡ worst_from (if b then s else best) statuses
unfolding worst_from
worst_from-step best s statuses b e = rw e refl

abbrev Bounds : HealthStatus → List HealthStatus → HealthStatus → Type 0
Bounds best statuses w = (severity best ≤ severity w) × All (λ s. severity s ≤ severity w) statuses

worst_from-max :
    (best : HealthStatus) (statuses : List HealthStatus)
    → Bounds best statuses (worst_from best statuses)
unfolding worst_from
worst_from-max best [] = (omega arith, tt)
worst_from-max best (s ∷ statuses) = elim (Bool-cases (ltb (severity best) (severity s))) [
  | inl e ↦
      let (a, b) = worst_from-max s statuses in
      subst (Bounds best (s ∷ statuses)) (sym (worst_from-step best s statuses true e))
        (omega (arith, ltb→lt (severity best) (severity s) e), (a, b))
  | inr e ↦
      let (a, b) = worst_from-max best statuses in
      subst (Bounds best (s ∷ statuses)) (sym (worst_from-step best s statuses false e))
        (a, (ground arith, b))
]

worst_from-listed :
    (best : HealthStatus) (statuses : List HealthStatus)
    → (i : ℕ) × (get_elem? (best ∷ statuses) i ≡ some (worst_from best statuses))
unfolding worst_from
worst_from-listed best [] = (0, refl)
worst_from-listed best (s ∷ statuses) = elim (Bool-cases (ltb (severity best) (severity s))) [
  | inl e ↦ let (i, h) = worst_from-listed s statuses in rw e (suc i, h)
  | inr e ↦ rw e (skip best s statuses _ (worst_from-listed best statuses))
]
  where
    skip :
        (best s : HealthStatus) (statuses : List HealthStatus) (w : HealthStatus)
        → (i : ℕ) × (get_elem? (best ∷ statuses) i ≡ some w)
        → (i : ℕ) × (get_elem? (best ∷ s ∷ statuses) i ≡ some w)
    skip best s statuses w (zero, h) = (0, h)
    skip best s statuses w (suc i, h) = (suc (suc i), h)

-- The overall status of some sources is that of one of them, and none is worse.
pub overall_status-worst :
    (s : HealthStatus) (statuses : List HealthStatus)
    → All (λ x. severity x ≤ severity (overall_status (s ∷ statuses))) (s ∷ statuses)
      × ((i : ℕ) × (get_elem? (s ∷ statuses) i ≡ some (overall_status (s ∷ statuses))))
unfolding overall_status
overall_status-worst s statuses = (worst_from-max s statuses, worst_from-listed s statuses)
