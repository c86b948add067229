-- ===== src/Pipeline/Persistence.antt =====
-- src/acquire_intel/pipeline/persistence.py: the last stage, which buffers the items of a run and
-- writes all of them at its end, or none. A transaction of `session_scope` is taken to succeed.
pub mod Laws
use acquire_intel.Prelude.{
  ℕ, ◌+◌, Bool, true, false, Option, none, some, List, [], ◌∷◌, ◌++◌, if◌then◌else◌, Text, length,
}
use acquire_intel.Storage.Models.{Database}
use acquire_intel.Storage.Models as Rows
use acquire_intel.Storage.Products.{upsert}
use acquire_intel.Storage.Observations.{append}
use acquire_intel.Storage.Runs.{baseline_count}
use acquire_intel.Pipeline.Spiders.{
  Spider, source_id_of, run_id_of, is_enabled, QualityIssue, volume_anomaly, items_persisted,
  quality_quarantined, quality, PipelineStats, inc_stat,
}
use acquire_intel.Pipeline.Normalize.{Product, NormalizedItem}
use acquire_intel.Pipeline.Items.{Item, normalized}
use acquire_intel.Pipeline.Quality.{GateThresholds, check_volume}

pub record PersistencePipeline : Type 0 where
  pub enabled : Bool
  pub source_id : Text
  pub run_id : Text
  pub thresholds : GateThresholds
  pub buffer : List NormalizedItem
  pub persisted : ℕ
  pub baseline : Option ℕ
  pub stats : PipelineStats

unfoldable pub open_spider :
    GateThresholds → PipelineStats → Spider → Database → PersistencePipeline
open_spider thresholds stats spider db = record {
  enabled = is_enabled spider;
  source_id = source_id_of spider;
  run_id = run_id_of spider;
  thresholds = thresholds;
  buffer = [];
  persisted = 0;
  baseline =
      if is_enabled spider
      then baseline_count (source_id_of spider) (run_id_of spider) db
      else none;
  stats = stats;
}

unfoldable pub process_item : Item → PersistencePipeline → PersistencePipeline
process_item (normalized item) p =
    if p.enabled then record p { buffer = p.buffer ++ item ∷ [] } else p
process_item item p = p

-- The row that `ProductRepository.upsert` makes of a product.
abbrev pub row_of : Product → Rows.Product
row_of product = record {
  id = product.id;
  source_id = product.source_id;
  external_id = product.external_id;
  title = product.title;
  brand = product.brand;
  url = product.url;
  image_url = product.image_url;
  first_seen_at = product.first_seen_at;
  last_seen_at = product.last_seen_at;
}

-- The loop over the buffer.
unfoldable pub flush :
    List NormalizedItem → PersistencePipeline → Database → PersistencePipeline × Database
flush [] p db = (p, db)
flush (item ∷ items) p db =
    flush items (record p { persisted = p.persisted + 1; stats = inc_stat items_persisted p.stats })
      (append item.observation (upsert (row_of item.product) db))

abbrev closed :
    Option QualityIssue → PersistencePipeline → Database → PersistencePipeline × Database
unfolding flush
closed (some volume_anomaly) p db = (
  record p { stats = inc_stat (quality volume_anomaly) (inc_stat quality_quarantined p.stats) },
  db,
)
closed issue p db = flush p.buffer p db

unfoldable pub close_spider : PersistencePipeline → Database → PersistencePipeline × Database
unfolding flush
close_spider p db =
    if p.enabled
    then closed (check_volume (length p.buffer) p.baseline p.thresholds) p db
    else (p, db)
