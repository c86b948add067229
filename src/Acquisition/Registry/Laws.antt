-- ===== src/Acquisition/Registry/Laws.antt =====
-- The registry as the runner and the command line use it.
use acquire_intel.Prelude.{
  ℕ, ◌≡◌, refl, Bool, true, Option, none, some, List, [], ◌∷◌, Text, codes, builtins,
}
use acquire_intel.Prelude.Sorting.{sort_by, insert_by}
use acquire_intel.Resilience.Middleware.BanDetection.{BanEvent}
use acquire_intel.Storage.Models.{Database}
use acquire_intel.Acquisition.Runner.{
  Process, Ended, crashed, finished, CrawlArgs, DriftLimits, run_crawl, plain_end,
}
use acquire_intel.Acquisition.Registry.{get_spider, no_op_spider, known_sources, le_text}

known_sorted :
    known_sources
    ≡ codes "demo"
      ∷ codes "demo_graphql"
      ∷ codes "demo_html"
      ∷ codes "demo_rest"
      ∷ codes "live_rest"
      ∷ []
unfolding known_sources sort_by insert_by le_text builtins
known_sorted = refl

demo-no_op : get_spider (codes "demo") ≡ some no_op_spider
unfolding get_spider builtins
demo-no_op = refl

plain_end-database : (e : Ended × List BanEvent × Database) → (plain_end e).1 ≡ e.2
plain_end-database (crashed, bans, db) = refl
plain_end-database (finished s, bans, db) = refl

-- A crawl of the source `demo` whose process can be made, whether it is given a run or not, leaves the database as the crawl
-- process does: no row of the ledger is opened or closed.
demo_crawl-database :
    (start : Text → Option CrawlArgs → Database → Ended × List BanEvent × Database)
    (prepare : Text → Option CrawlArgs → Bool) (limits : DriftLimits) (run_id : Option Text)
    (fresh : Text) (t0 t1 : ℕ) (db : Database)
    → let p : Process = record { get_spider = get_spider; prepare = prepare; start = start } in
      prepare (codes "demo") none ≡ true
      → (run_crawl p limits (codes "demo") run_id fresh t0 t1 db).1
        ≡ (start (codes "demo") none db).2
unfolding run_crawl
demo_crawl-database start prepare limits run_id fresh t0 t1 db ready =
    rw (demo-no_op, ready) (plain_end-database (start (codes "demo") none db))
