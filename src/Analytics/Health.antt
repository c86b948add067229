-- ===== src/Analytics/Health.antt =====
-- src/acquire_intel/analytics/health.py: the state of a source's recent runs, newest first. Rates are
-- exact fractions.
pub mod Laws
use acquire_intel.Prelude.{
  ℕ, ◌+◌, ◌-◌, Bool, true, false, ◌&&◌, ◌||◌, Option, none, some, List, [], ◌∷◌, map, ltb, leb,
  ◌==◌, if◌then◌else◌, Text, length,
}
use acquire_intel.Prelude.Ratio.{Ratio, ratio, le_ratio}
use acquire_intel.Storage.Models.{
  RunStatus, running, success, partial, failed, quarantined, flagged,
}
use mathlib.Core.List.{reverse}

abbrev pub is_committed : RunStatus → Bool
is_committed success = true
is_committed partial = true
is_committed _ = false

abbrev pub is_degraded_status : RunStatus → Bool
is_degraded_status partial = true
is_degraded_status quarantined = true
is_degraded_status flagged = true
is_degraded_status _ = false

abbrev pub is_failed : RunStatus → Bool
is_failed failed = true
is_failed _ = false

pub data HealthStatus : Type 0 where
  healthy degraded stale failing : HealthStatus

abbrev pub severity : HealthStatus → ℕ
severity healthy = 0
severity degraded = 1
severity stale = 2
severity failing = 3

pub record RunPoint : Type 0 where
  pub status : RunStatus
  pub started_at : ℕ
  pub finished_at : Option ℕ
  pub items_ok : ℕ
  pub items_rejected : ℕ
  pub ban_events : ℕ
  pub requests : ℕ

pub record SourceHealth : Type 0 where
  pub source_id : Text
  pub last_status : Option RunStatus
  pub last_run_at : Option ℕ
  pub last_success_at : Option ℕ
  pub items_ok : ℕ
  pub items_rejected : ℕ
  pub ban_events : ℕ
  pub rotations : ℕ
  pub is_stale : Bool
  pub trend : List ℕ
  pub total_runs : ℕ

abbrev pub or_later : Option ℕ → Option ℕ → Option ℕ
or_later none later = later
or_later (some t) later = some t

-- The finish of a run that has committed and finished.
abbrev pub commit_time : RunPoint → Option ℕ
commit_time r = if is_committed r.status then r.finished_at else none

-- `_last_success_at`: the first such run.
unfoldable pub last_success_at : List RunPoint → Option ℕ
last_success_at [] = none
last_success_at (r ∷ runs) = or_later (commit_time r) (last_success_at runs)

abbrev pub is_over_budget : ℕ → Option ℕ → Option ℕ → Bool
is_over_budget now none last = false
is_over_budget now (some budget) none = true
is_over_budget now (some budget) (some t) = ltb budget (now - t)

abbrev finish_or_start : RunPoint → Option ℕ
finish_or_start r = some (elim r.finished_at [ none ↦ r.started_at | some t ↦ t ])

unfoldable pub summarize_source : Text → List RunPoint → ℕ → Option ℕ → ℕ → SourceHealth
unfolding last_success_at
summarize_source source_id [] rotations stale_after_seconds now = record {
  source_id = source_id;
  last_status = none;
  last_run_at = none;
  last_success_at = none;
  items_ok = 0;
  items_rejected = 0;
  ban_events = 0;
  rotations = rotations;
  is_stale = false;
  trend = [];
  total_runs = 0;
}
summarize_source source_id (latest ∷ runs) rotations stale_after_seconds now =
    let last = last_success_at (latest ∷ runs) in
    record {
      source_id = source_id;
      last_status = some latest.status;
      last_run_at = finish_or_start latest;
      last_success_at = last;
      items_ok = latest.items_ok;
      items_rejected = latest.items_rejected;
      ban_events = latest.ban_events;
      rotations = rotations;
      is_stale = is_over_budget now stale_after_seconds last;
      trend = map (λ r. r.ban_events) (reverse (latest ∷ runs));
      total_runs = length (latest ∷ runs);
    }

pub record SourceHealthSummary : Type 0 where
  pub source : Text
  pub status : HealthStatus
  pub last_success_at : Option ℕ
  pub last_run_status : Option RunStatus
  pub ban_rate : Option Ratio
  pub stale_after_seconds : ℕ

unfoldable pub sum_of : (RunPoint → ℕ) → List RunPoint → ℕ
sum_of f [] = 0
sum_of f (r ∷ runs) = f r + sum_of f runs

abbrev pub ban_rate_of : List RunPoint → Option Ratio
ban_rate_of runs =
    if sum_of (λ r. r.requests) runs == 0
    then none
    else some (ratio (sum_of (λ r. r.ban_events) runs) (sum_of (λ r. r.requests) runs))

-- ban_rate is not None and ban_rate >= limit
abbrev pub reaches : Ratio → Option Ratio → Bool
reaches limit none = false
reaches limit (some rate) = le_ratio limit rate

-- last_success_at is not None and it is too long ago
abbrev pub is_outdated : ℕ → ℕ → Option ℕ → Bool
is_outdated now budget none = false
is_outdated now budget (some t) = ltb budget (now - t)

abbrev pub is_none : Option ℕ → Bool
is_none none = true
is_none (some t) = false

abbrev pub status_of : Bool → Bool → Bool → HealthStatus
status_of fails is_stale is_noisy =
    if fails then failing else if is_stale then stale else if is_noisy then degraded else healthy

unfoldable pub classify_source : Text → List RunPoint → ℕ → ℕ → Ratio → Ratio → SourceHealthSummary
unfolding last_success_at sum_of
classify_source source [] stale_after_seconds now degraded_ban_rate fail_ban_rate = record {
  source = source;
  status = stale;
  last_success_at = none;
  last_run_status = none;
  ban_rate = none;
  stale_after_seconds = stale_after_seconds;
}
classify_source source (latest ∷ runs) stale_after_seconds now degraded_ban_rate fail_ban_rate =
    let last = last_success_at (latest ∷ runs) in
    let rate = ban_rate_of (latest ∷ runs) in
    record {
      source = source;
      status =
          status_of (is_failed latest.status || reaches fail_ban_rate rate)
            (is_outdated now stale_after_seconds last)
            (is_degraded_status latest.status || (reaches degraded_ban_rate rate || is_none last));
      last_success_at = last;
      last_run_status = some latest.status;
      ban_rate = rate;
      stale_after_seconds = stale_after_seconds;
    }

-- `max` with the severity as key: the first of the worst.
worst_from : HealthStatus → List HealthStatus → HealthStatus
worst_from best [] = best
worst_from best (s ∷ statuses) =
    worst_from (if ltb (severity best) (severity s) then s else best) statuses

unfoldable pub overall_status : List HealthStatus → HealthStatus
unfolding worst_from
overall_status [] = healthy
overall_status (s ∷ statuses) = worst_from s statuses
