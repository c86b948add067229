-- ===== src/Acquisition/Scheduler/Laws.antt =====
-- The jobs that the scheduler has once it is configured.
use acquire_intel.Prelude.{
  ℕ, ℤ, pos, ◌≡◌, refl, ap, subst, Bool, true, false, Bool-cases, Option-cases, inl, inr, Option,
  none, some, List, [], ◌∷◌, Text, Dict, get, put, get-put, eqb, eqb_iff, eqb_refl, any_of, arith,
}
use acquire_intel.Config.{Settings}
use acquire_intel.Storage.Models.{Source, Database}
use acquire_intel.Storage.Listing.{get_source}
use acquire_intel.Acquisition.Orchestrator.{list_ids}
use acquire_intel.Acquisition.Scheduler.{
  Job, job_id, policy_seconds, interval_of, add_jobs, scheduled, configure_scheduler,
}

job_id-eqb : (a b : Text) → eqb (job_id a) (job_id b) ≡ eqb a b
unfolding eqb
job_id-eqb a b = refl

-- The interval that a source asks for: its own, or that of the settings; a value that is no number
-- has none.
abbrev pub AtPolicy : ℕ → Option (Option ℤ) → ℤ → Type 0
AtPolicy default none n = n ≡ pos default
AtPolicy default (some none) n = ⊥
AtPolicy default (some (some k)) n = n ≡ k

abbrev pub ScheduledAt : ℕ → Option Source → ℤ → Type 0
ScheduledAt default none n = n ≡ pos default
ScheduledAt default (some row) n = AtPolicy default row.schedule_seconds n

policy_seconds-AtPolicy :
    (default : ℕ) (value : Option (Option ℤ)) (n : ℤ)
    → policy_seconds default value ≡ some n
    → AtPolicy default value n
policy_seconds-AtPolicy default none n e = cc
policy_seconds-AtPolicy default (some none) n e = cc
policy_seconds-AtPolicy default (some (some k)) n e = cc

interval_of-ScheduledAt :
    (default : ℕ) (row : Option Source) (n : ℤ)
    → interval_of default row ≡ some n
    → ScheduledAt default row n
interval_of-ScheduledAt default none n e = cc
interval_of-ScheduledAt default (some row) n e =
    policy_seconds-AtPolicy default row.schedule_seconds n e

policy_seconds-none :
    (default : ℕ) (value : Option (Option ℤ))
    → policy_seconds default value ≡ none
    → value ≡ some none
policy_seconds-none default none e = cc
policy_seconds-none default (some value) e = ap some e

-- The source has a row whose interval is no number.
abbrev pub HasBadInterval : Option Source → Type 0
HasBadInterval row = (s : Source) × (row ≡ some s) × (s.schedule_seconds ≡ some none)

interval_of-none :
    (default : ℕ) (row : Option Source) → interval_of default row ≡ none → HasBadInterval row
interval_of-none default none e = cc
interval_of-none default (some row) e =
    (row, refl, policy_seconds-none default row.schedule_seconds e)

-- The source has its one job, at the interval that it asks for.
abbrev pub HasJob : Settings → Database → Dict Job → Text → Type 0
HasJob cfg db jobs id =
    (n : ℤ) × (get jobs (job_id id) ≡ some (record { seconds = n; source_id = id }))
    × ScheduledAt cfg.scheduler_interval_seconds (get_source id db.sources) n

-- What the loop comes to.
abbrev Added : Settings → Database → List Text → Dict Job → Bool × Dict Job → Type 0
Added cfg db ids jobs (false, jobs') =
    (id : Text) × (any_of (eqb id) ids ≡ true) × HasBadInterval (get_source id db.sources)
Added cfg db ids jobs (true, jobs') =
    (id : Text)
    → (any_of (eqb id) ids ≡ false → get jobs' (job_id id) ≡ get jobs (job_id id))
      × (any_of (eqb id) ids ≡ true → HasJob cfg db jobs' id)

later :
    (cfg : Settings) (db : Database) (j : Text) (ids : List Text) (jobs : Dict Job) (n : ℤ)
    → ScheduledAt cfg.scheduler_interval_seconds (get_source j db.sources) n
    → (r : Bool × Dict Job)
    → Added cfg db ids (put jobs (job_id j) (record { seconds = n; source_id = j })) r
    → Added cfg db (j ∷ ids) jobs r
unfolding any_of
later cfg db j ids jobs n s (false, jobs') (id, listed, bad) = (id, ground (arith), bad)
later cfg db j ids jobs n s (true, jobs') h = λ id. (
  (λ e.
      let kept = (h id).0 (ground arith) in
      ground (
        arith,
        kept,
        get-put jobs (job_id j) (job_id id) (record { seconds = n; source_id = j }),
        job_id-eqb j id,
        eqb_iff j id,
        eqb_iff id j,
      )),
  λ e. elim (Bool-cases (any_of (eqb id) ids)) [
    | inl f ↦ (h id).1 f
    | inr f ↦
        let at_j : any_of (eqb j) ids ≡ false → HasJob cfg db jobs' j = λ g. (
          n,
          ground (
            arith,
            (h j).0 g,
            get-put jobs (job_id j) (job_id j) (record { seconds = n; source_id = j }),
            eqb_refl (job_id j),
          ),
          s,
        ) in
        let same : j ≡ id = ground (arith, eqb_iff id j) in
        subst (λ t. any_of (eqb t) ids ≡ false → HasJob cfg db jobs' t) same at_j f
  ],
)

add_jobs-Added :
    (cfg : Settings) (db : Database) (ids : List Text) (jobs : Dict Job)
    → Added cfg db ids jobs (add_jobs cfg db ids jobs)
unfolding add_jobs any_of
add_jobs-Added cfg db [] jobs = λ id. ((λ e. refl), λ e. cc)
add_jobs-Added cfg db (j ∷ ids) jobs =
    let default = cfg.scheduler_interval_seconds in
    let row = get_source j db.sources in
    elim (Option-cases (interval_of default row)) [
      | inl e ↦ rw e (j, ground (arith, eqb_refl j), interval_of-none default row e)
      | inr (n, e) ↦ rw e (
          later cfg db j ids jobs n (interval_of-ScheduledAt default row n e) _ (
            add_jobs-Added cfg db ids
              (put jobs (job_id j) (record { seconds = n; source_id = j }))))
    ]

-- What configuring comes to, for the sources of the list.
abbrev pub Configured :
    Settings → Database → List Text → Dict Job → Option (List Text) × Dict Job → Type 0
Configured cfg db sources jobs (none, jobs') =
    (id : Text) × (any_of (eqb id) sources ≡ true) × HasBadInterval (get_source id db.sources)
Configured cfg db sources jobs (some ids, jobs') =
    (ids ≡ sources)
    × ((id : Text)
        → (any_of (eqb id) sources ≡ false → get jobs' (job_id id) ≡ get jobs (job_id id))
          × (any_of (eqb id) sources ≡ true → HasJob cfg db jobs' id))

scheduled-Configured :
    (cfg : Settings) (db : Database) (ids : List Text) (jobs : Dict Job) (r : Bool × Dict Job)
    → Added cfg db ids jobs r
    → Configured cfg db ids jobs (scheduled ids r)
scheduled-Configured cfg db ids jobs (true, jobs') h = (refl, h)
scheduled-Configured cfg db ids jobs (false, jobs') h = h

-- If configuring the scheduler returns, it returns the registered sources, and each of them has one job
-- under its id, that crawls it at the interval of its own policy, or of the settings where that says
-- none; the job of any other id is as it was. It raises only if the policy of some registered source
-- has an interval that `int` does not take.
pub configure_scheduler-jobs :
    (order : List Text → List Text) (cfg : Settings) (db : Database) (jobs : Dict Job)
    → Configured cfg db (list_ids order db) jobs (configure_scheduler order cfg db jobs)
unfolding configure_scheduler
configure_scheduler-jobs order cfg db jobs =
    scheduled-Configured cfg db (list_ids order db) jobs (add_jobs cfg db (list_ids order db) jobs)
      (add_jobs-Added cfg db (list_ids order db) jobs)
