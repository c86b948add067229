-- ===== src/Storage/Runs.antt =====
-- `CrawlRunRepository` and `BanEventRepository` of src/acquire_intel/storage/repositories.py: the ledger.
use acquire_intel.Prelude.{
  ℕ, Bool, true, false, ◌&&◌, not, Option, none, some, List, [], ◌∷◌, ◌++◌, map, leb, if◌then◌else◌,
  Text, eqb, length,
}
use acquire_intel.Resilience.Middleware.BanDetection.{BanEvent}
use acquire_intel.Storage.Models.{CrawlRun, RunStatus, running, success, partial, Database}

-- `CrawlRunRepository.open`
unfoldable pub open_run : Text → Text → ℕ → Database → Database
open_run run_id source_id started_at db = record db {
  crawl_runs =
      db.crawl_runs
      ++ record {
        id = run_id;
        source_id = source_id;
        status = running;
        items_ok = 0;
        items_rejected = 0;
        ban_events = 0;
        requests = none;
        started_at = started_at;
        finished_at = none;
      }
        ∷ [];
}

unfoldable pub get_run : Text → List CrawlRun → Option CrawlRun
get_run id [] = none
get_run id (row ∷ rows) = if eqb row.id id then some row else get_run id rows

-- What a close writes; `requests` is there if timings are given.
pub record Closing : Type 0 where
  pub status : RunStatus
  pub items_ok : ℕ
  pub items_rejected : ℕ
  pub finished_at : ℕ
  pub ban_events : ℕ
  pub requests : Option ℕ

abbrev or_else : Option ℕ → Option ℕ → Option ℕ
or_else none old = old
or_else (some n) old = some n

abbrev pub closed_row : Closing → CrawlRun → CrawlRun
closed_row c row = record row {
  status = c.status;
  items_ok = c.items_ok;
  items_rejected = c.items_rejected;
  ban_events = c.ban_events;
  finished_at = some c.finished_at;
  requests = or_else c.requests row.requests;
}

unfoldable pub close_rows : Text → Closing → List CrawlRun → List CrawlRun
close_rows id c [] = []
close_rows id c (row ∷ rows) =
    if eqb row.id id then closed_row c row ∷ rows else row ∷ close_rows id c rows

-- `none` is the KeyError of an unknown run.
unfoldable pub close_run : Text → Closing → Database → Option Database
unfolding close_rows get_run
close_run id c db = elim (get_run id db.crawl_runs) [
  | none ↦ none
  | some row ↦ some (record db { crawl_runs = close_rows id c db.crawl_runs })
]

abbrev pub is_committed : RunStatus → Bool
is_committed success = true
is_committed partial = true
is_committed _ = false

abbrev is_finished : CrawlRun → Bool
is_finished row = elim row.finished_at [ none ↦ false | some t ↦ true ]

abbrev finish_time : CrawlRun → ℕ
finish_time row = elim row.finished_at [ none ↦ 0 | some t ↦ t ]

-- The rows that may give a baseline.
abbrev pub counts_for : Text → Text → CrawlRun → Bool
counts_for source_id exclude_run_id row =
    eqb row.source_id source_id
    && (not (eqb row.id exclude_run_id) && (is_committed row.status && is_finished row))

abbrev later_of : Option CrawlRun → CrawlRun → Option CrawlRun
later_of none row = some row
later_of (some kept) row = if leb (finish_time kept) (finish_time row) then some row else some kept

latest_finished : (CrawlRun → Bool) → Option CrawlRun → List CrawlRun → Option CrawlRun
latest_finished test kept [] = kept
latest_finished test kept (row ∷ rows) =
    latest_finished test (if test row then later_of kept row else kept) rows

-- ORDER BY finished_at DESC LIMIT 1
unfoldable pub baseline_count : Text → Text → Database → Option ℕ
unfolding latest_finished
baseline_count source_id exclude_run_id db =
    elim (latest_finished (counts_for source_id exclude_run_id) none db.crawl_runs) [
      | none ↦ none
      | some row ↦ some row.items_ok
    ]

-- `BanEventRepository.record`: the new database and the number of rows written.
unfoldable pub record_bans : Text → List BanEvent → Database → ℕ × Database
record_bans run_id events db = (
  length events,
  record db {
    ban_events = db.ban_events ++ map (λ e. record { run_id = run_id; event = e }) events;
  },
)
