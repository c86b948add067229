-- ===== src/Pipeline/Items.antt =====
-- `NormalizePipeline` of src/acquire_intel/pipeline/item_pipeline.py. The clock of `process_item` is the
-- argument `now`, and the id that `uuid4` makes for a run without one is the argument `fresh`.
pub mod Laws
use acquire_intel.Prelude.{
  ℕ, ◌+◌, Bool, true, false, Option, none, some, List, [], ◌∷◌, if◌then◌else◌, Text, eqb, any_of,
  is_empty,
}
use acquire_intel.Pipeline.Spiders.{
  Spider, source_id_of, run_id_of, PipelineStat, items_rejected, items_duplicate, PipelineStats,
  inc_stat,
}
use acquire_intel.Pipeline.Price.{Unicode, Result, raised, returned}
use acquire_intel.Pipeline.Normalize.{RawProduct, NormalizedItem, Capture, normalize}

-- What a spider yields, or an earlier stage hands on: `other` is any other object.
pub data Item : Type 0 where
  raw : RawProduct → Item
  normalized : NormalizedItem → Item
  other : Item

pub record NormalizePipeline : Type 0 where
  pub source_id : Text
  pub run_id : Text
  pub default_currency : Option Text
  pub seen : List Text
  pub items_ok : ℕ
  pub items_rejected : ℕ
  pub items_duplicate : ℕ
  pub stats : PipelineStats

unfoldable pub open_spider : Text → PipelineStats → Spider → NormalizePipeline
open_spider fresh stats spider = record {
  source_id = source_id_of spider;
  run_id = if is_empty (run_id_of spider) then fresh else run_id_of spider;
  default_currency = spider.default_currency;
  seen = [];
  items_ok = 0;
  items_rejected = 0;
  items_duplicate = 0;
  stats = stats;
}

abbrev pub reject : NormalizePipeline → NormalizePipeline
reject p = record p {
  items_rejected = p.items_rejected + 1;
  stats = inc_stat PipelineStat.items_rejected p.stats;
}

abbrev pub skip_duplicate : NormalizePipeline → NormalizePipeline
skip_duplicate p = record p {
  items_duplicate = p.items_duplicate + 1;
  stats = inc_stat PipelineStat.items_duplicate p.stats;
}

abbrev pub keep : Text → NormalizePipeline → NormalizePipeline
keep product_id p = record p { seen = product_id ∷ p.seen; items_ok = p.items_ok + 1 }

-- The second half of `process_item`; `none` is DropItem.
abbrev pub deduped : NormalizePipeline → NormalizedItem → Option NormalizedItem × NormalizePipeline
deduped p item =
    if any_of (eqb item.product.id) p.seen
    then (none, skip_duplicate p)
    else (some item, keep item.product.id p)

abbrev pub settled :
    NormalizePipeline → Result NormalizedItem → Option NormalizedItem × NormalizePipeline
settled p (raised e) = (none, reject p)
settled p (returned item) = deduped p item

abbrev pub capture_at : ℕ → NormalizePipeline → Capture
capture_at now p = record {
  source_id = p.source_id;
  run_id = p.run_id;
  captured_at = now;
  default_currency = p.default_currency;
}

unfoldable pub process_item :
    Unicode → ℕ → Item → NormalizePipeline → Option NormalizedItem × NormalizePipeline
process_item u now (raw product) p = settled p (normalize u product (capture_at now p))
process_item u now (normalized item) p = (none, reject p)
process_item u now other p = (none, reject p)

-- A run of the stage: the items with their times, in order, and what comes out.
abbrev pub emitted : Option NormalizedItem → List NormalizedItem → List NormalizedItem
emitted none rest = rest
emitted (some item) rest = item ∷ rest

unfoldable pub process_all :
    Unicode → List (ℕ × Item) → NormalizePipeline → List NormalizedItem × NormalizePipeline
unfolding process_item
process_all u [] p = ([], p)
process_all u ((now, item) ∷ items) p =
    let (out, p') = process_item u now item p in
    let (rest, p'') = process_all u items p' in (emitted out rest, p'')
