-- ===== src/Storage/Tallies.antt =====
-- The grouped counts of `CrawlRunRepository` and `BanEventRepository` in
-- src/acquire_intel/storage/repositories.py. A status, kind or action is the text that its column holds.
mod Tests
use acquire_intel.Prelude.{
  ℕ, ◌+◌, ◌≡◌, refl, sym, ap, ◌∙◌, Bool, true, false, ◌&&◌, Option, none, some, List, [], ◌∷◌, ◌++◌,
  map, leb, if◌then◌else◌, Text, codes, eqb, eqb_iff, Dict, get, put, get-put, any_of, count_where,
  length, arith, Option-cases, inl, inr,
}
use acquire_intel.Prelude.Sorting.{sort_by}
use acquire_intel.Resilience.Classifier.{
  BanKind, BanAction, backoff, rotate_identity, rotate_proxy, give_up,
}
use acquire_intel.Resilience.Classifier as Classifier
use acquire_intel.Resilience.Middleware.BanDetection.{BanEvent}
use acquire_intel.Storage.Models.{
  CrawlRun, RunStatus, running, success, partial, failed, quarantined, flagged, BanEventRow,
  Database,
}
use acquire_intel.Storage.Observations.{where_rows}
use acquire_intel.Storage.Runs.{get_run}

-- The texts of the enumerations of src/acquire_intel/contracts.py.
abbrev pub status_text : RunStatus → Text
status_text running = codes "running"
status_text success = codes "success"
status_text partial = codes "partial"
status_text failed = codes "failed"
status_text quarantined = codes "quarantined"
status_text flagged = codes "flagged"

abbrev pub kind_text : BanKind → Text
kind_text BanKind.rate_limited = codes "rate_limited"
kind_text BanKind.blocked = codes "blocked"
kind_text BanKind.captcha = codes "captcha"
kind_text BanKind.empty = codes "empty"

abbrev pub action_text : BanAction → Text
action_text backoff = codes "backoff"
action_text rotate_identity = codes "rotate_identity"
action_text rotate_proxy = codes "rotate_proxy"
action_text give_up = codes "give_up"

-- d.get(k, 0)
abbrev pub or_zero : Option ℕ → ℕ
or_zero none = 0
or_zero (some n) = n

abbrev pub or_empty : Option (Dict ℕ) → Dict ℕ
or_empty none = []
or_empty (some counts) = counts

-- SELECT key, count(*) ... GROUP BY key
unfoldable pub tally : Dict ℕ → List Text → Dict ℕ
unfolding get put
tally counts [] = counts
tally counts (k ∷ ks) = tally (put counts k (or_zero (get counts k) + 1)) ks

-- Counts grouped by two keys, as a dictionary of dictionaries.
unfoldable pub tally_pairs : Dict (Dict ℕ) → List (Text × Text) → Dict (Dict ℕ)
unfolding get put
tally_pairs out [] = out
tally_pairs out ((a, b) ∷ pairs) =
    let counts = or_empty (get out a) in
    tally_pairs (put out a (put counts b (or_zero (get counts b) + 1))) pairs

abbrev pub status_pairs : Database → List (Text × Text)
status_pairs db = map (λ (r : CrawlRun). (r.source_id, status_text r.status)) db.crawl_runs

-- `status_counts_by_source`
unfoldable pub status_counts_by_source : Database → Dict (Dict ℕ)
unfolding tally_pairs
status_counts_by_source db = tally_pairs [] (status_pairs db)

-- The JOIN of the ban events with their runs; an event without one has no row.
abbrev joined : Option CrawlRun → Text → List (Text × Text) → List (Text × Text)
joined none kind rest = rest
joined (some run) kind rest = (run.source_id, kind) ∷ rest

unfoldable pub join_runs : List CrawlRun → List BanEventRow → List (Text × Text)
unfolding get_run
join_runs runs [] = []
join_runs runs (b ∷ bans) =
    joined (get_run b.run_id runs) (kind_text b.event.kind) (join_runs runs bans)

-- `kind_counts_by_source`
unfoldable pub kind_counts_by_source : Database → Dict (Dict ℕ)
unfolding tally_pairs join_runs
kind_counts_by_source db = tally_pairs [] (join_runs db.crawl_runs db.ban_events)

abbrev pub action_of : BanEventRow → Text
action_of b = action_text b.event.action_taken

-- `action_totals`
unfoldable pub action_totals : Database → Dict ℕ
unfolding tally
action_totals db = tally [] (map action_of db.ban_events)

-- `counts_by_action`
unfoldable pub counts_by_action : List Text → Database → Dict ℕ
unfolding tally where_rows any_of eqb
counts_by_action run_ids db =
    tally [] (map action_of (where_rows (λ b. any_of (eqb b.run_id) run_ids) db.ban_events))

-- `BanEventRepository.list_for`: ORDER BY occurred_at
unfoldable pub bans_for : Text → Database → List BanEventRow
unfolding where_rows sort_by eqb
bans_for run_id db =
    sort_by (λ a b. leb a.event.occurred_at b.event.occurred_at)
      (where_rows (λ b. eqb b.run_id run_id) db.ban_events)

-- How often a key, or a pair of keys, stands in a list.
unfoldable pub times : Text → List Text → ℕ
unfolding eqb
times k [] = 0
times k (j ∷ ks) = let rest = times k ks in if eqb j k then 1 + rest else rest

unfoldable pub times_pair : Text → Text → List (Text × Text) → ℕ
unfolding eqb
times_pair a b [] = 0
times_pair a b ((c, d) ∷ pairs) =
    let rest = times_pair a b pairs in if eqb c a && eqb d b then 1 + rest else rest

tally-get :
    (counts : Dict ℕ) (ks : List Text) (k : Text)
    → or_zero (get (tally counts ks) k) ≡ or_zero (get counts k) + times k ks
unfolding tally times
tally-get counts [] k = omega arith
tally-get counts (j ∷ ks) k =
    let v = or_zero (get counts j) + 1 in
    ground (arith, tally-get (put counts j v) ks k, get-put counts j k v, eqb_iff j k)

tally_pairs-get :
    (out : Dict (Dict ℕ)) (pairs : List (Text × Text)) (a b : Text)
    → or_zero (get (or_empty (get (tally_pairs out pairs) a)) b)
      ≡ or_zero (get (or_empty (get out a)) b) + times_pair a b pairs
unfolding tally_pairs times_pair
tally_pairs-get out [] a b = omega arith
tally_pairs-get out ((c, d) ∷ pairs) a b =
    let counts = or_empty (get out c) in
    let v = or_zero (get counts d) + 1 in
    ground (
      arith,
      tally_pairs-get (put out c (put counts d v)) pairs a b,
      get-put out c a (put counts d v),
      get-put counts d b v,
      eqb_iff c a,
      eqb_iff d b,
    )

-- The run is one of the source's, with the status.
abbrev pub is_run_of : Text → Text → CrawlRun → Bool
is_run_of source status run = eqb run.source_id source && eqb (status_text run.status) status

abbrev pub ran_for : Text → Option CrawlRun → Bool
ran_for source none = false
ran_for source (some run) = eqb run.source_id source

-- The event is of the kind, and its run is one of the source's.
abbrev pub is_ban_of : Database → Text → Text → BanEventRow → Bool
is_ban_of db source kind b =
    ran_for source (get_run b.run_id db.crawl_runs) && eqb (kind_text b.event.kind) kind

abbrev pub has_action : Text → BanEventRow → Bool
has_action action b = eqb (action_text b.event.action_taken) action

times_pair-runs :
    (source status : Text) (runs : List CrawlRun)
    → times_pair source status (map (λ (r : CrawlRun). (r.source_id, status_text r.status)) runs)
      ≡ count_where (is_run_of source status) runs
unfolding times_pair count_where
times_pair-runs source status [] = refl
times_pair-runs source status (r ∷ runs) = rw (times_pair-runs source status runs) refl

times_pair-joined :
    (db : Database) (source kind : Text) (bans : List BanEventRow)
    → times_pair source kind (join_runs db.crawl_runs bans)
      ≡ count_where (is_ban_of db source kind) bans
unfolding times_pair join_runs count_where
times_pair-joined db source kind [] = refl
times_pair-joined db source kind (b ∷ bans) = elim (Option-cases (get_run b.run_id db.crawl_runs)) [
  | inl e ↦ rw e (times_pair-joined db source kind bans)
  | inr (run, e) ↦ rw (e, times_pair-joined db source kind bans) refl
]

times-actions :
    (action : Text) (bans : List BanEventRow)
    → times action (map action_of bans) ≡ count_where (has_action action) bans
unfolding times count_where
times-actions action [] = refl
times-actions action (b ∷ bans) = rw (times-actions action bans) refl

-- The grouped counts are exact, an absent key being 0: the number under a source and a status is that
-- of the runs of this source with this status, the number under a source and a kind that of the ban
-- events of this kind whose run is one of this source's, and the total of an action that of the ban
-- events with this action.
pub grouped_counts :
    (db : Database) (source status kind action : Text)
    → (or_zero (get (or_empty (get (status_counts_by_source db) source)) status)
        ≡ count_where (is_run_of source status) db.crawl_runs)
      × (or_zero (get (or_empty (get (kind_counts_by_source db) source)) kind)
          ≡ count_where (is_ban_of db source kind) db.ban_events)
      × (or_zero (get (action_totals db) action) ≡ count_where (has_action action) db.ban_events)
unfolding status_counts_by_source kind_counts_by_source action_totals get
grouped_counts db source status kind action = (
  omega (
    arith,
    tally_pairs-get [] (status_pairs db) source status,
    times_pair-runs source status db.crawl_runs,
  ),
  omega (
    arith,
    tally_pairs-get [] (join_runs db.crawl_runs db.ban_events) source kind,
    times_pair-joined db source kind db.ban_events,
  ),
  omega (
    arith,
    tally-get [] (map action_of db.ban_events) action,
    times-actions action db.ban_events,
  ),
)
