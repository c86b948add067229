-- ===== src/Pipeline/Spiders.antt =====
-- What the three pipelines of src/acquire_intel/pipeline/ read of the spider, and the stats they count.
use acquire_intel.Prelude.{
  Bool, true, false, ◌&&◌, not, Option, none, some, List, [], ◌∷◌, ◌++◌, Text, is_empty,
}

-- `kind` and the options are attributes that a spider may lack.
pub record Spider : Type 0 where
  pub name : Text
  pub id : Option Text
  pub kind : Option Text
  pub run_id : Option Text
  pub default_currency : Option Text

-- getattr(spider, "id", spider.name)
abbrev pub source_id_of : Spider → Text
source_id_of spider = elim spider.id [ none ↦ spider.name | some id ↦ id ]

-- getattr(spider, "run_id", "")
abbrev pub run_id_of : Spider → Text
run_id_of spider = elim spider.run_id [ none ↦ [] | some id ↦ id ]

abbrev has_kind : Spider → Bool
has_kind spider = elim spider.kind [ none ↦ false | some kind ↦ true ]

-- Only an extractor with an open run is gated and persisted.
abbrev pub is_enabled : Spider → Bool
is_enabled spider = has_kind spider && not (is_empty (run_id_of spider))

pub data QualityIssue : Type 0 where
  out_of_range discontinuous volume_anomaly : QualityIssue

pub data PipelineStat : Type 0 where
  items_rejected items_duplicate items_persisted quality_quarantined : PipelineStat
  quality : QualityIssue → PipelineStat

-- The calls of `stats.inc_value`, in order; `none` where there is no collector.
abbrev pub PipelineStats : Type 0
PipelineStats = Option (List PipelineStat)

-- `_inc_stat`
abbrev pub inc_stat : PipelineStat → PipelineStats → PipelineStats
inc_stat s none = none
inc_stat s (some calls) = some (calls ++ s ∷ [])
