-- ===== src/Acquisition/Runner.antt =====
-- src/acquire_intel/acquisition/runner.py: one crawl and its row in the ledger. Scrapy's process is the
-- parameter `Process`; the fresh id of `uuid4` and the clocks are arguments.
pub mod Laws
pub mod Adopted
use acquire_intel.Prelude.{
  ℕ, Bool, true, false, not, Option, none, some, List, [], ltb, if◌then◌else◌, Text, codes, eqb,
  is_empty,
}
use acquire_intel.Prelude.Ratio.{Ratio}
use acquire_intel.Resilience.Middleware.BanDetection.{BanEvent}
use acquire_intel.Storage.Models.{
  Source, RunStatus, success, partial, failed, quarantined, flagged, Database,
}
use acquire_intel.Storage.Listing.{get_source}
use acquire_intel.Storage.Runs.{open_run, Closing, close_run, record_bans}
use acquire_intel.Analytics.Drift.{assess_drift}

-- `_collect_stats`, less the number of items, which is only logged.
pub record CrawlStats : Type 0 where
  pub items_ok : ℕ
  pub items_rejected : ℕ
  pub quarantined : ℕ
  pub entries_seen : ℕ
  pub entries_mapped : ℕ
  pub requests : ℕ
  pub finish_reason : Option Text

-- `crawl_kwargs`, less the sink of ban events, which the process returns.
pub record CrawlArgs : Type 0 where
  pub run_id : Text
  pub base_url : Text
  pub default_currency : Text

pub data Ended : Type 0 where
  crashed : Ended
  finished : CrawlStats → Ended

-- A spider class, of which only the `kind` is read here.
pub record SpiderClass : Type 0 where
  pub kind : Option Text

-- Outside code: the registry of spiders and the crawl process, which writes items to the database.
-- `prepare` tells whether making the process and its crawler goes without an exception; `start` is what
-- the `try` has in it, where a crash is an `Exception`.
pub record Process : Type 0 where
  pub get_spider : Text → Option SpiderClass
  pub prepare : Text → Option CrawlArgs → Bool
  pub start : Text → Option CrawlArgs → Database → Ended × List BanEvent × Database

-- The end of `run_crawl`: an exit code, or an exception.
pub data Exit : Type 0 where
  code : ℕ → Exit
  raised : Exit

pub record DriftLimits : Type 0 where
  pub min_entries : ℕ
  pub max_unmapped_ratio : Ratio

abbrev is_finished : Option Text → Bool
is_finished none = false
is_finished (some reason) = eqb reason (codes "finished")

unfoldable pub run_status : Option Text → ℕ → ℕ → Bool → RunStatus
run_status finish_reason items_rejected quarantine_count drift =
    if not (is_finished finish_reason)
    then failed
    else if drift
    then flagged
    else if ltb 0 quarantine_count
    then quarantined
    else if ltb 0 items_rejected
    then partial
    else success

-- policy.get("default_currency", "USD")
abbrev pub currency_of : Source → Text
currency_of source = elim source.default_currency [ none ↦ codes "USD" | some c ↦ c ]

-- `_close_run`: one transaction, which an unknown run undoes.
unfoldable pub close_ledger :
    Text → RunStatus → ℕ → ℕ → List BanEvent → ℕ → ℕ → Database → Option Database
close_ledger run_id status items_ok items_rejected ban_events requests now db =
    let (recorded, db') = record_bans run_id ban_events db in
    close_run run_id
      (record {
        status = status;
        items_ok = items_ok;
        items_rejected = items_rejected;
        finished_at = now;
        ban_events = recorded;
        requests = some requests;
      })
      db'

abbrev committed : Exit → Database → Option Database → Exit × Database
committed exit db none = (raised, db)
committed exit db (some db') = (exit, db')

-- The status that the statistics of a crawl call for.
abbrev pub final_status : DriftLimits → CrawlStats → RunStatus
final_status limits s =
    run_status s.finish_reason s.items_rejected s.quarantined
      (assess_drift s.entries_seen s.entries_mapped limits.min_entries limits.max_unmapped_ratio)

-- After the process, for a persistable source.
abbrev pub ledger_end : DriftLimits → Text → ℕ → Ended × List BanEvent × Database → Exit × Database
ledger_end limits run_id now (crashed, bans, db) =
    committed raised db (close_ledger run_id failed 0 0 bans 0 now db)
ledger_end limits run_id now (finished s, bans, db) =
    committed (code 0) db (
      close_ledger run_id (final_status limits s) s.items_ok s.items_rejected bans s.requests now
        db)

-- After the process, for a source without a ledger.
abbrev pub plain_end : Ended × List BanEvent × Database → Exit × Database
plain_end (crashed, bans, db) = (raised, db)
plain_end (finished s, bans, db) = (code 0, db)

-- The process of a persistable source. An exception before the `try` leaves the ledger as it is.
abbrev pub crawled :
    Process → DriftLimits → Text → Text → ℕ → CrawlArgs → Database → Exit × Database
crawled p limits source_id run_id closed_at args db =
    if p.prepare source_id (some args)
    then ledger_end limits run_id closed_at (p.start source_id (some args) db)
    else (raised, db)

abbrev pub args_of : Text → Source → CrawlArgs
args_of run_id source = record {
  run_id = run_id;
  base_url = source.base_url;
  default_currency = currency_of source;
}

abbrev pub launch :
    Process → DriftLimits → Text → Text → Bool → ℕ → ℕ → Option Source → Database → Exit × Database
launch p limits source_id run_id owns_run opened_at closed_at none db = (code 2, db)
launch p limits source_id run_id owns_run opened_at closed_at (some source) db =
    crawled p limits source_id run_id closed_at (args_of run_id source)
      (if owns_run then open_run run_id source_id opened_at db else db)

abbrev owns : Option Text → Bool
owns none = true
owns (some id) = false

-- run_id or uuid4().hex
abbrev id_or : Option Text → Text → Text
id_or none fresh = fresh
id_or (some id) fresh = if is_empty id then fresh else id

abbrev pub has_ledger : SpiderClass → Bool
has_ledger spider = elim spider.kind [ none ↦ false | some k ↦ true ]

abbrev pub crawl_with :
    Process
    → DriftLimits
    → Text
    → Option Text
    → Text
    → ℕ
    → ℕ
    → Option SpiderClass
    → Database
    → Exit × Database
unfolding get_source
crawl_with p limits source_id run_id fresh opened_at closed_at none db = (code 2, db)
crawl_with p limits source_id run_id fresh opened_at closed_at (some spider) db =
    if has_ledger spider
    then launch p limits source_id (id_or run_id fresh) (owns run_id) opened_at closed_at
        (get_source source_id db.sources) db
    else if p.prepare source_id none
    then plain_end (p.start source_id none db)
    else (raised, db)

unfoldable pub run_crawl :
    Process → DriftLimits → Text → Option Text → Text → ℕ → ℕ → Database → Exit × Database
unfolding get_source close_ledger crawl_with
run_crawl p limits source_id run_id fresh opened_at closed_at db =
    crawl_with p limits source_id run_id fresh opened_at closed_at (p.get_spider source_id) db
