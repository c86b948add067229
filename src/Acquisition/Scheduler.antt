-- ===== src/Acquisition/Scheduler.antt =====
-- src/acquire_intel/acquisition/scheduler.py: one crawl job for each registered source. The scheduler is
-- its jobs, by their ids; starting its thread is left out.
pub mod Laws
use acquire_intel.Prelude.{
  ℕ, ℤ, pos, Bool, true, false, Option, none, some, List, [], ◌∷◌, ◌++◌, if◌then◌else◌, Text, codes,
  Dict, put,
}
use acquire_intel.Config.{Settings}
use acquire_intel.Storage.Models.{Source, Database}
use acquire_intel.Storage.Listing.{get_source}
use acquire_intel.Acquisition.Orchestrator.{list_ids, trigger_crawl}

pub record Job : Type 0 where
  pub seconds : ℤ
  pub source_id : Text

abbrev pub job_id : Text → Text
job_id source_id = codes "crawl:" ++ source_id

-- int(policy.get("schedule_seconds", cfg.scheduler_interval_seconds)); `none` is an exception.
abbrev pub policy_seconds : ℕ → Option (Option ℤ) → Option ℤ
policy_seconds default none = some (pos default)
policy_seconds default (some value) = value

abbrev pub interval_of : ℕ → Option Source → Option ℤ
interval_of default none = some (pos default)
interval_of default (some row) = policy_seconds default row.schedule_seconds

abbrev with_interval : Text → Dict Job → (Dict Job → Bool × Dict Job) → Option ℤ → Bool × Dict Job
with_interval source_id jobs rest none = (false, jobs)
with_interval source_id jobs rest (some seconds) =
    rest (put jobs (job_id source_id) (record { seconds = seconds; source_id = source_id }))

-- The loop: whether it went through, and the jobs. An exception leaves those of the sources before.
unfoldable pub add_jobs : Settings → Database → List Text → Dict Job → Bool × Dict Job
unfolding put get_source
add_jobs cfg db [] jobs = (true, jobs)
add_jobs cfg db (source_id ∷ ids) jobs =
    with_interval source_id jobs (add_jobs cfg db ids)
      (interval_of cfg.scheduler_interval_seconds (get_source source_id db.sources))

abbrev pub scheduled : List Text → Bool × Dict Job → Option (List Text) × Dict Job
scheduled ids (true, jobs) = (some ids, jobs)
scheduled ids (false, jobs) = (none, jobs)

-- `configure_scheduler`: the scheduled ids, or an exception, and the jobs.
unfoldable pub configure_scheduler :
    (List Text → List Text) → Settings → Database → Dict Job → Option (List Text) × Dict Job
unfolding list_ids add_jobs
configure_scheduler order cfg db jobs =
    scheduled (list_ids order db) (add_jobs cfg db (list_ids order db) jobs)

-- No scheduler, one that runs its jobs, or an exception.
pub data Start : Type 0 where
  idle raised : Start
  running : Dict Job → Start

abbrev configured : Option (List Text) × Dict Job → Start
configured (none, jobs) = raised
configured (some ids, jobs) = running jobs

-- `start_scheduler`; the outer `none` is a failed read of the database.
unfoldable pub start_scheduler : (List Text → List Text) → Settings → Option Database → Start
unfolding configure_scheduler
start_scheduler order cfg none = idle
start_scheduler order cfg (some db) =
    if cfg.scheduler_enabled then configured (configure_scheduler order cfg db []) else idle

-- `_scheduled_crawl`: the crawls launched, and the database; the answer is only logged.
unfoldable pub scheduled_crawl :
    (Text → Bool)
    → (List Text → List Text)
    → (ℕ → Text)
    → ℕ
    → Job
    → Database
    → List (Text × Text) × Database
unfolding trigger_crawl
scheduled_crawl has_spider order fresh now job db =
    let (answer, crawls, db') =
      trigger_crawl has_spider order (some (job.source_id ∷ [])) fresh now db in
    (crawls, db')
