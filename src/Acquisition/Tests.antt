-- ===== src/Acquisition/Tests.antt =====
-- A crawl of a small registry.
use acquire_intel.Prelude.{
  ◌≡◌, ◌≢◌, refl, pos, true, false, none, some, List, [], ◌∷◌, Text, codes, eqb, builtins,
}
use acquire_intel.Prelude.Ratio.{ratio}
use acquire_intel.Storage.Models.{Source, CrawlRun, Database}
use acquire_intel.Storage.Listing.{get_source}
use acquire_intel.Storage.Runs.{get_run, open_run, close_run, Closing}
use acquire_intel.Storage.Ledger.{close_run-row, ClosedRow, opened_row}
use acquire_intel.Storage.Models.{success}
use acquire_intel.Acquisition.Runner.{CrawlStats, finished, Process, Exit, DriftLimits, run_crawl}
use acquire_intel.Acquisition.Runner.Laws.{Closed, KeepsLedger, Crawlable, run_crawl-closes}
use acquire_intel.Acquisition.Runner.Adopted.{Adopted, run_crawl-adopts}
use acquire_intel.Config.{defaults}
use acquire_intel.Acquisition.Scheduler.{add_jobs, configure_scheduler}
use acquire_intel.Acquisition.Scheduler.Laws.{Configured, configure_scheduler-jobs}
use acquire_intel.Acquisition.Orchestrator.{list_ids}

abbrev shop : Source
shop = record {
  id = codes "shop";
  kind = codes "rest";
  base_url = codes "https://shop.test";
  stale_after_seconds = 60;
  default_currency = none;
  schedule_seconds = none;
}

abbrev registry : Database
registry = record {
  sources = shop ∷ [];
  products = [];
  crawl_runs = opened_row (codes "r0") (codes "shop") 3 ∷ [];
  price_observations = [];
  ban_events = [];
}

abbrev calm : CrawlStats
calm = record {
  items_ok = 4;
  items_rejected = 0;
  quarantined = 0;
  entries_seen = 4;
  entries_mapped = 4;
  requests = 2;
  finish_reason = some (codes "finished");
}

-- A process that knows the shop alone, writes nothing and ends well.
abbrev quiet : Process
quiet = record {
  get_spider = λ id. elim (eqb id (codes "shop")) [
    | true ↦ some (record { kind = some (codes "rest") })
    | false ↦ none
  ];
  prepare = λ source_id args. true;
  start = λ source_id args db. (finished calm, [], db);
}

abbrev limits : DriftLimits
limits = record { min_entries = 3; max_unmapped_ratio = ratio 1 2 }

quiet-KeepsLedger : KeepsLedger quiet
quiet-KeepsLedger source_id args db = refl

shop-Crawlable : Crawlable quiet (codes "shop") registry
unfolding get_source builtins
shop-Crawlable = record {
  spider = record { kind = some (codes "rest") };
  is_spider = refl;
  has_kind = refl;
  source = shop;
  is_source = refl;
}

r1_new : get_run (codes "r1") registry.crawl_runs ≡ none
unfolding get_run builtins
r1_new = refl

run_crawl-closes_example :
    (true ≡ true
      → Closed
          (codes "r1")
          5
          9
          (open_run (codes "r1") (codes "shop") 5 registry).crawl_runs
          (run_crawl quiet limits (codes "shop") none (codes "r1") 5 9 registry).1.crawl_runs)
    × (true ≡ false
        → ((run_crawl quiet limits (codes "shop") none (codes "r1") 5 9 registry).0 ≡ Exit.raised)
          × (get_run
                (codes "r1")
                (run_crawl quiet limits (codes "shop") none (codes "r1") 5 9 registry).1.crawl_runs
              ≡ some (opened_row (codes "r1") (codes "shop") 5)))
run_crawl-closes_example =
    run_crawl-closes quiet limits (codes "shop") (codes "r1") 5 9 registry quiet-KeepsLedger
      shop-Crawlable r1_new

r0_open : get_run (codes "r0") registry.crawl_runs ≡ some (opened_row (codes "r0") (codes "shop") 3)
unfolding get_run builtins
r0_open = refl

run_crawl-adopts_example :
    Adopted quiet
      (codes "shop")
      (codes "r0")
      9
      registry
      (opened_row (codes "r0") (codes "shop") 3)
      (run_crawl quiet limits (codes "shop") (some (codes "r0")) (codes "r1") 5 9 registry)
run_crawl-adopts_example =
    run_crawl-adopts quiet limits (codes "shop") (codes "r0") (codes "r1") 5 9 registry
      (opened_row (codes "r0") (codes "shop") 3) quiet-KeepsLedger refl r0_open

abbrev well : Closing
well = record {
  status = success;
  items_ok = 4;
  items_rejected = 0;
  finished_at = 9;
  ban_events = 0;
  requests = some 2;
}

close_run-row_example :
    ((get_run (codes "r0") registry.crawl_runs ≡ none)
      → close_run (codes "r0") well registry ≡ none)
    × ((row : CrawlRun)
        → get_run (codes "r0") registry.crawl_runs ≡ some row
        → (rows : List CrawlRun) × (new : CrawlRun) × (close_run (codes "r0") well registry
            ≡ some (record registry { crawl_runs = rows }))
          × (get_run (codes "r0") rows ≡ some new)
          × ClosedRow well row new
          × ((other : Text)
              → other ≢ codes "r0"
              → get_run other rows ≡ get_run other registry.crawl_runs))
close_run-row_example = close_run-row (codes "r0") well registry

configure_scheduler-jobs_example :
    Configured
      (defaults [] [] [])
      registry
      (list_ids (λ ids. ids) registry)
      []
      (configure_scheduler (λ ids. ids) (defaults [] [] []) registry [])
configure_scheduler-jobs_example =
    configure_scheduler-jobs (λ ids. ids) (defaults [] [] []) registry []

hourly :
    (configure_scheduler (λ ids. ids) (defaults [] [] []) registry []).1
    ≡ (codes "crawl:shop", record { seconds = pos 3600; source_id = codes "shop" }) ∷ []
unfolding configure_scheduler list_ids add_jobs get_source builtins
hourly = refl

-- The source's own policy comes first, and a value that is no number stops the loop.
own_interval :
    (configure_scheduler
      (λ ids. ids)
      (defaults [] [] [])
      (record registry { sources = record shop { schedule_seconds = some (some (pos 60)) } ∷ [] })
      []).1
    ≡ (codes "crawl:shop", record { seconds = pos 60; source_id = codes "shop" }) ∷ []
unfolding configure_scheduler list_ids add_jobs get_source builtins
own_interval = refl

bad_interval :
    configure_scheduler
      (λ ids. ids)
      (defaults [] [] [])
      (record registry { sources = record shop { schedule_seconds = some none } ∷ [] })
      []
    ≡ (none, [])
unfolding configure_scheduler list_ids add_jobs get_source builtins
bad_interval = refl
