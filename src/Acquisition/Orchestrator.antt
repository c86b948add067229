-- ===== src/Acquisition/Orchestrator.antt =====
-- src/acquire_intel/acquisition/orchestrator.py: a run is opened for every target, then each crawl is
-- launched. Outside are the registry of spiders, the order that the database gives the ids, and `uuid4`,
-- whose n-th id of a call is `fresh n`.
use acquire_intel.Prelude.{
  ℕ, ◌+◌, ◌≡◌, refl, sym, ap, ◌∙◌, Bool, ◌||◌, not, Option, none, some, List, [], ◌∷◌, ◌++◌, map,
  if◌then◌else◌, Text, eqb, any_of,
}
use acquire_intel.Storage.Models.{Source, CrawlRun, Database}
use acquire_intel.Storage.Runs.{open_run}
use acquire_intel.Storage.Ledger.{opened_row}
use mathlib.Core.List.{append_assoc, append-nil}

pub record TriggeredRun : Type 0 where
  pub id : Text
  pub source : Text
  pub started_at : ℕ

-- UnknownSourceError, or the runs.
pub data Trigger : Type 0 where
  unknown_source : Text → Trigger
  triggered : List TriggeredRun → Trigger

-- `SourceRepository.list_ids`
unfoldable pub list_ids : (List Text → List Text) → Database → List Text
list_ids order_by_id db = order_by_id (map (λ (s : Source). s.id) db.sources)

-- The first id that is not registered or has no extractor.
unfoldable pub first_unknown : (Text → Bool) → List Text → List Text → Option Text
unfolding any_of
first_unknown has_spider known [] = none
first_unknown has_spider known (sid ∷ ids) =
    let rest = first_unknown has_spider known ids in
    if not (any_of (eqb sid) known) || not (has_spider sid) then some sid else rest

-- The loop that opens the runs, with the number of ids taken.
unfoldable pub open_each : (ℕ → Text) → ℕ → ℕ → List Text → Database → List TriggeredRun × Database
open_each fresh n now [] db = ([], db)
open_each fresh n now (source_id ∷ targets) db =
    let (rest, db') = open_each fresh (n + 1) now targets (open_run (fresh n) source_id now db) in
    (record { id = fresh n; source = source_id; started_at = now } ∷ rest, db')

-- `launch(run.source, run.id)` for each run, in order.
abbrev pub launches : List TriggeredRun → List (Text × Text)
launches runs = map (λ (r : TriggeredRun). (r.source, r.id)) runs

abbrev opened : List TriggeredRun × Database → Trigger × List (Text × Text) × Database
opened (runs, db) = (triggered runs, launches runs, db)

abbrev started :
    (ℕ → Text) → ℕ → List Text → Database → Option Text → Trigger × List (Text × Text) × Database
unfolding open_each
started fresh now ids db none = opened (open_each fresh 0 now ids db)
started fresh now ids db (some sid) = (unknown_source sid, [], db)

-- The answer, the crawls launched, and the database.
unfoldable pub trigger_crawl :
    (Text → Bool)
    → (List Text → List Text)
    → Option (List Text)
    → (ℕ → Text)
    → ℕ
    → Database
    → Trigger × List (Text × Text) × Database
unfolding list_ids first_unknown started open_each
trigger_crawl has_spider order_by_id none fresh now db =
    started fresh now (list_ids order_by_id db) db none
trigger_crawl has_spider order_by_id (some ids) fresh now db =
    started fresh now ids db (first_unknown has_spider (list_ids order_by_id db) ids)

abbrev rows_of : List TriggeredRun → List CrawlRun
rows_of runs = map (λ (r : TriggeredRun). opened_row r.id r.source r.started_at) runs

-- The new rows stand at the end of the ledger, one for each run, the runs are those of the targets, and
-- the other tables are as they were.
pub record Opened (targets : List Text) (db : Database) (runs : List TriggeredRun) (db' : Database)
    : Type 0 where
  pub sources : map (λ (r : TriggeredRun). r.source) runs ≡ targets
  pub written : db' ≡ record db { crawl_runs = db.crawl_runs ++ rows_of runs }

open_run-rows :
    (id source_id : Text) (now : ℕ) (db : Database)
    → Opened
        (source_id ∷ [])
        db
        (record { id = id; source = source_id; started_at = now } ∷ [])
        (open_run id source_id now db)
unfolding open_run
open_run-rows id source_id now db = record { sources = refl; written = refl }

open_each-Opened :
    (fresh : ℕ → Text) (n now : ℕ) (targets : List Text) (db : Database)
    → Opened targets db (open_each fresh n now targets db).0 (open_each fresh n now targets db).1
unfolding open_each
open_each-Opened fresh n now [] db = record {
  sources = refl;
  written =
      ap (λ (xs : List CrawlRun). record db { crawl_runs = xs }) (sym (append-nil db.crawl_runs));
}
open_each-Opened fresh n now (t ∷ targets) db =
    let first = open_run-rows (fresh n) t now db in
    let rest = open_each-Opened fresh (n + 1) now targets (open_run (fresh n) t now db) in
    let runs = (open_each fresh (n + 1) now targets (open_run (fresh n) t now db)).0 in
    record {
      sources = ap (λ (ts : List Text). t ∷ ts) rest.sources;
      written =
          rest.written
          ∙ ap (λ (d : Database). record d { crawl_runs = d.crawl_runs ++ rows_of runs })
              first.written
          ∙ ap (λ (xs : List CrawlRun). record db { crawl_runs = xs })
              (append_assoc db.crawl_runs (opened_row (fresh n) t now ∷ []) (rows_of runs));
    }

-- What a trigger of the given targets comes to.
abbrev pub Outcome :
    List Text → Option Text → Database → Trigger × List (Text × Text) × Database → Type 0
Outcome targets unknown db (answer, launched, db') = elim unknown [
  | some sid ↦ (answer ≡ unknown_source sid) × (launched ≡ []) × (db' ≡ db)
  | none ↦
      (runs : List TriggeredRun) × (answer ≡ triggered runs)
      × (launched ≡ launches runs)
      × Opened targets db runs db'
]

pub trigger_crawl-Outcome :
    (has_spider : Text → Bool) (order_by_id : List Text → List Text) (fresh : ℕ → Text) (now : ℕ)
    (db : Database)
    → Outcome
        (list_ids order_by_id db)
        none
        db
        (trigger_crawl has_spider order_by_id none fresh now db)
      × ((ids : List Text)
          → Outcome ids
              (first_unknown has_spider (list_ids order_by_id db) ids)
              db
              (trigger_crawl has_spider order_by_id (some ids) fresh now db))
unfolding trigger_crawl started
trigger_crawl-Outcome has_spider order_by_id fresh now db = (
  (_, refl, refl, open_each-Opened fresh 0 now (list_ids order_by_id db) db),
  λ ids. by_targets ids (first_unknown has_spider (list_ids order_by_id db) ids),
)
  where
    by_targets : (ids : List Text) (u : Option Text) → Outcome ids u db (started fresh now ids db u)
    by_targets ids none = (_, refl, refl, open_each-Opened fresh 0 now ids db)
    by_targets ids (some sid) = (refl, refl, refl)
