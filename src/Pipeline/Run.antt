-- ===== src/Pipeline/Run.antt =====
-- A run through the three pipelines as src/acquire_intel/acquisition/scrapy_settings.py orders them:
-- normalize (300), quality (350), persistence (400). An item that one of them drops goes no further.
pub mod Batch
pub mod Laws
use acquire_intel.Prelude.{ℕ, Option, none, some, List, [], ◌∷◌, Text}
use acquire_intel.Storage.Models.{Database}
use acquire_intel.Pipeline.Spiders.{Spider, PipelineStats}
use acquire_intel.Pipeline.Price.{Unicode}
use acquire_intel.Pipeline.Normalize.{NormalizedItem}
use acquire_intel.Pipeline.Items as Items
use acquire_intel.Pipeline.Quality as Quality
use acquire_intel.Pipeline.Persistence as Persistence

pub record Pipelines : Type 0 where
  pub normalize : Items.NormalizePipeline
  pub quality : Quality.QualityGatePipeline
  pub persistence : Persistence.PersistencePipeline

unfoldable pub open_all : Text → Quality.GateThresholds → Spider → Database → Pipelines
unfolding Items.open_spider Quality.open_spider Persistence.open_spider
open_all fresh thresholds spider db = record {
  normalize = Items.open_spider fresh (some []) spider;
  quality = Quality.open_spider thresholds (some []) spider db;
  persistence = Persistence.open_spider thresholds (some []) spider db;
}

-- What the last stage makes of the verdict of the second, and that of the verdict of the first.
abbrev pub stored : Pipelines → Option Items.Item → Pipelines
stored s none = s
stored s (some item) = record s { persistence = Persistence.process_item item s.persistence }

abbrev pub gated : Pipelines → Option NormalizedItem → Pipelines
gated s none = s
gated s (some item) =
    let r = Quality.process_item (Items.normalized item) s.quality in
    stored (record s { quality = r.1 }) r.0

unfoldable pub feed : Unicode → ℕ → Items.Item → Pipelines → Pipelines
unfolding Items.process_item Quality.process_item Persistence.process_item
feed u now item s =
    let r = Items.process_item u now item s.normalize in gated (record s { normalize = r.1 }) r.0

unfoldable pub feed_all : Unicode → List (ℕ × Items.Item) → Pipelines → Pipelines
unfolding feed
feed_all u [] s = s
feed_all u ((now, item) ∷ items) s = feed_all u items (feed u now item s)

-- The whole run, from the opening of the spider to its close.
unfoldable pub crawl :
    Unicode → Text → Quality.GateThresholds → Spider → List (ℕ × Items.Item) → Database → Database
unfolding open_all feed_all Persistence.close_spider
crawl u fresh thresholds spider items db =
    (Persistence.close_spider (feed_all u items (open_all fresh thresholds spider db)).persistence
      db).1
