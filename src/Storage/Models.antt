-- ===== src/Storage/Models.antt =====
-- src/acquire_intel/storage/models.py: the rows of the five tables, a table being the list of its rows in
-- the order of insertion. Timestamps are UTC ticks. Foreign keys and generated ids are left out.
use acquire_intel.Prelude.{ℕ, ℤ, Bool, Option, List, Text}
use acquire_intel.Resilience.Middleware.BanDetection.{BanEvent}
use acquire_intel.Storage.Decimal.{Decimal}

-- `crawl_policy` has the two keys that the program reads; `schedule_seconds` is what Python's `int` makes
-- of the value there, the inner `none` being its TypeError or ValueError.
pub record Source : Type 0 where
  pub id : Text
  pub kind : Text
  pub base_url : Text
  pub stale_after_seconds : ℕ
  pub default_currency : Option Text
  pub schedule_seconds : Option (Option ℤ)

pub record Product : Type 0 where
  pub id : Text
  pub source_id : Text
  pub external_id : Text
  pub title : Text
  pub brand : Option Text
  pub url : Text
  pub image_url : Option Text
  pub first_seen_at : ℕ
  pub last_seen_at : ℕ

-- `RunStatus` of src/acquire_intel/contracts.py.
pub data RunStatus : Type 0 where
  running success partial failed quarantined flagged : RunStatus

-- Of `timings` the program keeps the number of requests.
pub record CrawlRun : Type 0 where
  pub id : Text
  pub source_id : Text
  pub status : RunStatus
  pub items_ok : ℕ
  pub items_rejected : ℕ
  pub ban_events : ℕ
  pub requests : Option ℕ
  pub started_at : ℕ
  pub finished_at : Option ℕ

pub record PriceObservation : Type 0 where
  pub product_id : Text
  pub source_id : Text
  pub run_id : Text
  pub amount : Decimal
  pub currency : Text
  pub in_stock : Option Bool
  pub captured_at : ℕ

pub record BanEventRow : Type 0 where
  pub run_id : Text
  pub event : BanEvent

pub record Database : Type 0 where
  pub sources : List Source
  pub products : List Product
  pub crawl_runs : List CrawlRun
  pub price_observations : List PriceObservation
  pub ban_events : List BanEventRow
