-- ===== src/Acquisition/Runner/Laws.antt =====
-- Which of the runs that `run_crawl` opens or is given it closes.
use acquire_intel.Prelude.{
  ℕ, ◌≡◌, refl, ap, subst, ◌∙◌, ◌≢◌, Bool, true, false, not, ltb, Option, none, some, List,
  if◌then◌else◌, Text, eqb, eqb_iff, is_empty, arith,
}
use acquire_intel.Resilience.Middleware.BanDetection.{BanEvent}
use acquire_intel.Storage.Models.{CrawlRun, RunStatus, running, failed, Source, Database}
use acquire_intel.Storage.Listing.{get_source}
use acquire_intel.Storage.Runs.{get_run, Closing, open_run, record_bans}
use acquire_intel.Storage.Ledger.{closed_if, opened_row, get_run-open_run, close_run-rows}
use acquire_intel.Acquisition.Runner.{
  CrawlArgs, Ended, crashed, finished, SpiderClass, Process, Exit, DriftLimits, is_finished,
  has_ledger, run_status, close_ledger, final_status, ledger_end, crawled, args_of, run_crawl,
}

-- The row of a run that has ended.
pub record Closed (id : Text) (started_at finished_at : ℕ) (before after : List CrawlRun)
    : Type 0 where
  pub row : CrawlRun
  pub is_row : get_run id after ≡ some row
  pub started : row.started_at ≡ started_at
  pub ended : row.finished_at ≡ some finished_at
  pub terminal : row.status ≢ running
  pub others : (other : Text) → other ≢ id → get_run other after ≡ get_run other before

run_status-terminal :
    (reason : Option Text) (rejected quarantine_count : ℕ) (drift : Bool)
    → run_status reason rejected quarantine_count drift ≢ running
unfolding run_status
run_status-terminal reason rejected quarantine_count drift =
    cases (is_finished reason) drift (ltb 0 quarantine_count) (ltb 0 rejected)
  where
    cases :
        (a b c d : Bool)
        → (if not a
            then failed
            else if b
            then RunStatus.flagged
            else if c
            then RunStatus.quarantined
            else if d
            then RunStatus.partial
            else RunStatus.success)
          ≢ running
    cases false b c d = λ e. cc
    cases true true c d = λ e. cc
    cases true false true d = λ e. cc
    cases true false false true = λ e. cc
    cases true false false false = λ e. cc

eqb_ne : (s t : Text) → t ≢ s → eqb s t ≡ false
eqb_ne s t h = ground (arith, eqb_iff s t)

closed_if_self :
    (id : Text) (c : Closing) (o : Option CrawlRun) → closed_if (eqb id id) c o ≡ closed_if true c o
closed_if_self id c o = ground (arith, eqb_iff id id)

close_ledger-Closed :
    (id : Text) (status : RunStatus) (ok rejected : ℕ) (bans : List BanEvent) (requests now : ℕ)
    (db : Database) (row : CrawlRun)
    → status ≢ running
    → get_run id db.crawl_runs ≡ some row
    → (db' : Database) × (close_ledger id status ok rejected bans requests now db ≡ some db')
      × Closed id row.started_at now db.crawl_runs db'.crawl_runs
unfolding close_ledger record_bans
close_ledger-Closed id status ok rejected bans requests now db row s e =
    let c : Closing = record {
      status = status;
      items_ok = ok;
      items_rejected = rejected;
      finished_at = now;
      ban_events = (record_bans id bans db).0;
      requests = some requests;
    } in
    let (db', done, rows) = (close_run-rows id c (record_bans id bans db).1).1 row e in
    (
      db',
      done,
      record {
        row = _;
        is_row = rows id ∙ closed_if_self id c _ ∙ ap (closed_if true c) e;
        started = refl;
        ended = refl;
        terminal = s;
        others = λ other ne.
            rows other ∙ ap (λ b. closed_if b c (get_run other db.crawl_runs)) (eqb_ne id other ne);
      },
    )

-- However the process ends, the run is closed.
ledger_end-Closed :
    (limits : DriftLimits) (id : Text) (now : ℕ) (r : Ended) (bans : List BanEvent) (db : Database)
    (row : CrawlRun)
    → get_run id db.crawl_runs ≡ some row
    → Closed id row.started_at now db.crawl_runs
        (ledger_end limits id now (r, bans, db)).1.crawl_runs
ledger_end-Closed limits id now crashed bans db row e =
    let (db', done, closed) = close_ledger-Closed id failed 0 0 bans 0 now db row (λ f. cc) e in
    rw done closed
ledger_end-Closed limits id now (finished s) bans db row e =
    let (db', done, closed) =
      close_ledger-Closed id (final_status limits s) s.items_ok s.items_rejected bans s.requests now
        db row (run_status-terminal s.finish_reason s.items_rejected s.quarantined _) e in
    rw done closed

-- The process leaves the ledger alone.
abbrev pub KeepsLedger : Process → Type 0
KeepsLedger p =
    (source_id : Text) (args : Option CrawlArgs) (db : Database)
    → (p.start source_id args db).2.crawl_runs ≡ db.crawl_runs

start-Closed :
    (p : Process) (limits : DriftLimits) (source_id id : Text) (args : Option CrawlArgs) (now : ℕ)
    (db : Database) (row : CrawlRun)
    → KeepsLedger p
    → get_run id db.crawl_runs ≡ some row
    → Closed id row.started_at now db.crawl_runs
        (ledger_end limits id now (p.start source_id args db)).1.crawl_runs
start-Closed p limits source_id id args now db row keeps e =
    subst
      (λ (before : List CrawlRun).
        Closed id row.started_at now before
          (ledger_end limits id now (p.start source_id args db)).1.crawl_runs)
      (keeps source_id args db)
      (ledger_end-Closed limits id now (p.start source_id args db).0 (p.start source_id args db).1
        (p.start source_id args db).2 row (ap (get_run id) (keeps source_id args db) ∙ e))

-- The source can be crawled: an extractor with a kind, and a row in the registry.
pub record Crawlable (p : Process) (source_id : Text) (db : Database) : Type 0 where
  pub spider : SpiderClass
  pub is_spider : p.get_spider source_id ≡ some spider
  pub has_kind : has_ledger spider ≡ true
  pub source : Source
  pub is_source : get_source source_id db.sources ≡ some source

run_crawl-own :
    (p : Process) (limits : DriftLimits) (source_id fresh : Text) (t0 t1 : ℕ) (db : Database)
    (c : Crawlable p source_id db)
    → run_crawl p limits source_id none fresh t0 t1 db
      ≡ crawled p limits source_id fresh t1
          (args_of fresh c.source)
          (open_run fresh source_id t0 db)
unfolding run_crawl
run_crawl-own p limits source_id fresh t0 t1 db c = simp (c.is_spider, c.has_kind, c.is_source)

pub run_crawl-adopted :
    (p : Process) (limits : DriftLimits) (source_id id fresh : Text) (t0 t1 : ℕ) (db : Database)
    (c : Crawlable p source_id db)
    → is_empty id ≡ false
    → run_crawl p limits source_id (some id) fresh t0 t1 db
      ≡ crawled p limits source_id id t1 (args_of id c.source) db
unfolding run_crawl
run_crawl-adopted p limits source_id id fresh t0 t1 db c e =
    simp (c.is_spider, c.has_kind, c.is_source, e)

pub crawled-Closed :
    (p : Process) (limits : DriftLimits) (source_id id : Text) (args : CrawlArgs) (now : ℕ)
    (db : Database) (row : CrawlRun)
    → KeepsLedger p
    → get_run id db.crawl_runs ≡ some row
    → p.prepare source_id (some args) ≡ true
    → Closed id row.started_at now db.crawl_runs
        (crawled p limits source_id id now args db).1.crawl_runs
crawled-Closed p limits source_id id args now db row keeps e ready =
    rw ready (start-Closed p limits source_id id (some args) now db row keeps e)

-- A run that `run_crawl` opens for a crawlable source, and whose process can be made, is closed when it
-- returns or raises, whatever became of the crawl: its row bears the two times and a terminal
-- status, and every other row of the ledger is as it was. If making the process raises, that is
-- after the run has been opened and before the `try`: the exception is raised and the run stays
-- `running`. The process must leave the ledger alone and the id be new.
pub run_crawl-closes :
    (p : Process) (limits : DriftLimits) (source_id fresh : Text) (t0 t1 : ℕ) (db : Database)
    → KeepsLedger p
    → (c : Crawlable p source_id db) → get_run fresh db.crawl_runs ≡ none
    → (p.prepare source_id (some (args_of fresh c.source)) ≡ true
        → Closed fresh t0 t1
            (open_run fresh source_id t0 db).crawl_runs
            (run_crawl p limits source_id none fresh t0 t1 db).1.crawl_runs)
      × (p.prepare source_id (some (args_of fresh c.source)) ≡ false
          → ((run_crawl p limits source_id none fresh t0 t1 db).0 ≡ Exit.raised)
            × (get_run fresh (run_crawl p limits source_id none fresh t0 t1 db).1.crawl_runs
                ≡ some (opened_row fresh source_id t0)))
run_crawl-closes p limits source_id fresh t0 t1 db keeps c new =
    let found = get_run-open_run fresh source_id t0 db new in
    (
      (λ ready. rw (run_crawl-own p limits source_id fresh t0 t1 db c) (
          crawled-Closed p limits source_id fresh (args_of fresh c.source) t1
            (open_run fresh source_id t0 db) (opened_row fresh source_id t0) keeps found ready)),
      λ unready. rw (run_crawl-own p limits source_id fresh t0 t1 db c) (rw unready (refl, found)),
    )
