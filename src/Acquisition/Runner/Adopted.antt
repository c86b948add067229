-- ===== src/Acquisition/Runner/Adopted.antt =====
-- What becomes of a run that `run_crawl` is given by its opener.
use acquire_intel.Prelude.{
  ℕ, ◌≡◌, refl, ap, ◌∙◌, true, false, none, some, List, Text, is_empty, Bool-cases, Option-cases,
  inl, inr,
}
use acquire_intel.Resilience.Middleware.BanDetection.{BanEvent}
use acquire_intel.Storage.Models.{CrawlRun, Database}
use acquire_intel.Storage.Listing.{get_source}
use acquire_intel.Storage.Runs.{get_run}
use acquire_intel.Acquisition.Runner.{
  Ended, crashed, finished, SpiderClass, Process, Exit, DriftLimits, has_ledger, args_of, plain_end,
  run_crawl,
}
use acquire_intel.Acquisition.Runner.Laws.{
  Closed, KeepsLedger, Crawlable, run_crawl-adopted, crawled-Closed,
}

-- Why a run that `run_crawl` was given is not closed.
pub data LeftOpen (p : Process) (source_id id : Text) (db : Database) : Type 0 where
  no_spider : p.get_spider source_id ≡ none → LeftOpen p source_id id db
  no_kind :
      (spider : SpiderClass)
      → p.get_spider source_id ≡ some spider
      → has_ledger spider ≡ false
      → LeftOpen p source_id id db
  no_source : get_source source_id db.sources ≡ none → LeftOpen p source_id id db
  unprepared :
      (c : Crawlable p source_id db)
      → p.prepare source_id (some (args_of id c.source)) ≡ false
      → LeftOpen p source_id id db

-- The run is closed, which takes a crawlable source whose process can be made, or its row is as it was.
pub data Adopted (p : Process) (source_id id : Text) (now : ℕ) (db : Database) (row : CrawlRun)
    (r : Exit × Database) : Type 0 where
  closes :
      (c : Crawlable p source_id db)
      → p.prepare source_id (some (args_of id c.source)) ≡ true
      → Closed id row.started_at now db.crawl_runs r.1.crawl_runs
      → Adopted p source_id id now db row r
  left :
      LeftOpen p source_id id db
      → get_run id r.1.crawl_runs ≡ some row
      → Adopted p source_id id now db row r

module _ (p : Process) (limits : DriftLimits) (source_id id fresh : Text) (t0 t1 : ℕ)
    (db : Database) (row : CrawlRun) (keeps : KeepsLedger p) (named : is_empty id ≡ false)
    (e : get_run id db.crawl_runs ≡ some row) where
  abbrev run : Exit × Database
  run = run_crawl p limits source_id (some id) fresh t0 t1 db

  crawlable-Adopted : Crawlable p source_id db → Adopted p source_id id t1 db row run
  crawlable-Adopted c = elim (Bool-cases (p.prepare source_id (some (args_of id c.source)))) [
    | inl ready ↦ closes c ready (
        rw (run_crawl-adopted p limits source_id id fresh t0 t1 db c named)
          (crawled-Closed p limits source_id id (args_of id c.source) t1 db row keeps e ready))
    | inr unready ↦
        left (unprepared c unready)
          (rw (run_crawl-adopted p limits source_id id fresh t0 t1 db c named) (rw unready e))
  ]

  plain_end-ledger :
      (r : Ended × List BanEvent × Database) → (plain_end r).1.crawl_runs ≡ r.2.crawl_runs
  plain_end-ledger (crashed, bans, db') = refl
  plain_end-ledger (finished s, bans, db') = refl

  plain-kept :
      (spider : SpiderClass)
      → p.get_spider source_id ≡ some spider
      → has_ledger spider ≡ false
      → get_run id run.1.crawl_runs ≡ some row
  unfolding run_crawl
  plain-kept spider f k = elim (Bool-cases (p.prepare source_id none)) [
    | inl ready ↦
        rw (f, k, ready)
          (ap (get_run id) (plain_end-ledger (p.start source_id none db) ∙ keeps source_id none db)
            ∙ e)
    | inr unready ↦ rw (f, k, unready) e
  ]

  missing-kept :
      (spider : SpiderClass)
      → p.get_spider source_id ≡ some spider
      → has_ledger spider ≡ true
      → get_source source_id db.sources ≡ none
      → get_run id run.1.crawl_runs ≡ some row
  unfolding run_crawl
  missing-kept spider f k g = rw (f, k, g) e

  spider-Adopted :
      (spider : SpiderClass)
      → p.get_spider source_id ≡ some spider
      → Adopted p source_id id t1 db row run
  spider-Adopted spider f = elim (Bool-cases (has_ledger spider)) [
    | inr k ↦ left (no_kind spider f k) (plain-kept spider f k)
    | inl k ↦ elim (Option-cases (get_source source_id db.sources)) [
      | inl g ↦ left (no_source g) (missing-kept spider f k g)
      | inr (source, g) ↦
          crawlable-Adopted (record {
            spider = spider;
            is_spider = f;
            has_kind = k;
            source = source;
            is_source = g;
          })
    ]
  ]

  unknown-kept : p.get_spider source_id ≡ none → get_run id run.1.crawl_runs ≡ some row
  unfolding run_crawl
  unknown-kept f = rw f e

  -- A run with a row in the ledger that `run_crawl` is given, its id not being empty and the process
  -- leaving the ledger alone, is closed if its source is crawlable and the process can be made: its
  -- row bears the time of the close and a terminal status, and every other row is as it was.
  -- Otherwise its row stays as it is, and that for one of four reasons: no class crawls the source,
  -- the class has no kind, the source has no row, or making the process raises.
  pub run_crawl-adopts : Adopted p source_id id t1 db row run
  run_crawl-adopts = elim (Option-cases (p.get_spider source_id)) [
    | inl f ↦ left (no_spider f) (unknown-kept f)
    | inr (spider, f) ↦ spider-Adopted spider f
  ]
