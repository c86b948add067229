-- ===== src/Storage/Ledger.antt =====
-- What opening and closing a run do to the rows of the ledger.
use acquire_intel.Prelude.{
  ℕ, ◌≡◌, refl, ◌≢◌, Bool, true, false, Option, none, some, List, [], ◌∷◌, ◌++◌, Text, eqb, eqb_iff,
  arith, Bool-cases, inl, inr,
}
use acquire_intel.Storage.Models.{CrawlRun, Database, running}
use acquire_intel.Storage.Runs.{get_run, Closing, closed_row, close_rows, close_run, open_run}

abbrev pub closed_if : Bool → Closing → Option CrawlRun → Option CrawlRun
closed_if true c (some row) = some (closed_row c row)
closed_if true c none = none
closed_if false c o = o

pub get_run-close_rows :
    (id other : Text) (c : Closing) (rows : List CrawlRun)
    → get_run other (close_rows id c rows) ≡ closed_if (eqb id other) c (get_run other rows)
unfolding get_run close_rows
get_run-close_rows id other c [] = ground arith
get_run-close_rows id other c (row ∷ rows) = ground (
  arith,
  get_run-close_rows id other c rows,
  eqb_iff row.id id,
  eqb_iff row.id other,
  eqb_iff id other,
)

-- The row that `open_run` writes.
abbrev pub opened_row : Text → Text → ℕ → CrawlRun
opened_row run_id source_id started_at = record {
  id = run_id;
  source_id = source_id;
  status = running;
  items_ok = 0;
  items_rejected = 0;
  ban_events = 0;
  requests = none;
  started_at = started_at;
  finished_at = none;
}

get_run-append :
    (id : Text) (row : CrawlRun) (rows : List CrawlRun)
    → row.id ≡ id
    → get_run id rows ≡ none
    → get_run id (rows ++ row ∷ []) ≡ some row
unfolding get_run
get_run-append id row [] e h = ground (arith, eqb_iff row.id id)
get_run-append id row (r ∷ rows) e h = elim (Bool-cases (eqb r.id id)) [
  | inl f ↦ ground arith
  | inr f ↦ ground (arith, get_run-append id row rows e)
]

pub get_run-open_run :
    (run_id source_id : Text) (started_at : ℕ) (db : Database)
    → get_run run_id db.crawl_runs ≡ none
    → get_run run_id (open_run run_id source_id started_at db).crawl_runs
      ≡ some (opened_row run_id source_id started_at)
unfolding open_run
get_run-open_run run_id source_id started_at db h =
    get_run-append run_id (opened_row run_id source_id started_at) db.crawl_runs refl h

close_run-missing :
    (id : Text) (c : Closing) (db : Database)
    → get_run id db.crawl_runs ≡ none
    → close_run id c db ≡ none
unfolding close_run
close_run-missing id c db e = rw (close_run, e) refl

close_run-found :
    (id : Text) (c : Closing) (db : Database) (row : CrawlRun)
    → get_run id db.crawl_runs ≡ some row
    → close_run id c db ≡ some (record db { crawl_runs = close_rows id c db.crawl_runs })
unfolding close_run
close_run-found id c db row e = rw (close_run, e) refl

pub close_run-rows :
    (id : Text) (c : Closing) (db : Database)
    → ((get_run id db.crawl_runs ≡ none) → close_run id c db ≡ none)
      × ((row : CrawlRun)
          → get_run id db.crawl_runs ≡ some row
          → (db' : Database) × (close_run id c db ≡ some db')
            × ((other : Text)
                → get_run other db'.crawl_runs
                  ≡ closed_if (eqb id other) c (get_run other db.crawl_runs)))
close_run-rows id c db = (
  (λ e. close_run-missing id c db e),
  λ row e. (
    record db { crawl_runs = close_rows id c db.crawl_runs },
    close_run-found id c db row e,
    λ other. get_run-close_rows id other c db.crawl_runs,
  ),
)

-- The row of a run that has been closed: what the close was given, and the rest as it was. The number of
-- requests stays where the close gives none.
pub record ClosedRow (c : Closing) (old new : CrawlRun) : Type 0 where
  pub status : new.status ≡ c.status
  pub items_ok : new.items_ok ≡ c.items_ok
  pub items_rejected : new.items_rejected ≡ c.items_rejected
  pub ban_events : new.ban_events ≡ c.ban_events
  pub finished_at : new.finished_at ≡ some c.finished_at
  pub requests :
      ((n : ℕ) → c.requests ≡ some n → new.requests ≡ some n)
      × (c.requests ≡ none → new.requests ≡ old.requests)
  pub kept : (new.id ≡ old.id) × (new.source_id ≡ old.source_id) × (new.started_at ≡ old.started_at)

closed_row-ClosedRow : (c : Closing) (row : CrawlRun) → ClosedRow c row (closed_row c row)
closed_row-ClosedRow c row = record {
  status = refl;
  items_ok = refl;
  items_rejected = refl;
  ban_events = refl;
  finished_at = refl;
  requests = ((λ n e. rw e refl), λ e. rw e refl);
  kept = (refl, refl, refl);
}

-- A close succeeds exactly on the runs that are there. Then the row of the run has the status, the
-- counts and the finish that are given, and else what it had; the row of every other run, and every
-- other table, is as it was.
pub close_run-row :
    (id : Text) (c : Closing) (db : Database)
    → ((get_run id db.crawl_runs ≡ none) → close_run id c db ≡ none)
      × ((row : CrawlRun)
          → get_run id db.crawl_runs ≡ some row
          → (rows : List CrawlRun) × (new : CrawlRun) × (close_run id c db
              ≡ some (record db { crawl_runs = rows }))
            × (get_run id rows ≡ some new)
            × ClosedRow c row new
            × ((other : Text) → other ≢ id → get_run other rows ≡ get_run other db.crawl_runs))
close_run-row id c db = (
  (λ e. close_run-missing id c db e),
  λ row e. (
    close_rows id c db.crawl_runs,
    closed_row c row,
    close_run-found id c db row e,
    ground (arith, get_run-close_rows id id c db.crawl_runs, eqb_iff id id),
    closed_row-ClosedRow c row,
    λ other ne. ground (arith, get_run-close_rows id other c db.crawl_runs, eqb_iff id other),
  ),
)
