-- ===== src/Pipeline/Quality.antt =====
-- src/acquire_intel/pipeline/quality.py: the three gates, and `QualityGatePipeline`. The two float
-- thresholds are finite: exact fractions with a sign and a positive denominator.
pub mod Laws
use acquire_intel.Prelude.{
  ℕ, ◌+◌, ◌-◌, ◌*◌, Bool, true, false, ◌||◌, ◌&&◌, not, Option, none, some, List, [], ltb,
  if◌then◌else◌, Text, Dict, get,
}
use acquire_intel.Prelude.Ratio.{Ratio, lt_ratio, max_ratio, Signed, positive}
use acquire_intel.Config.{Settings}
use acquire_intel.Storage.Decimal.{Decimal, decimal, zero_amount, lt_decimal, le_decimal, quotient}
use acquire_intel.Storage.Models.{Database}
use acquire_intel.Storage.Observations.{latest_amounts_for_source}
use acquire_intel.Pipeline.Spiders.{
  Spider, source_id_of, is_enabled, QualityIssue, out_of_range, discontinuous, volume_anomaly,
  items_rejected, quality, PipelineStats, inc_stat,
}
use acquire_intel.Pipeline.Normalize.{NormalizedItem}
use acquire_intel.Pipeline.Items.{Item, raw, normalized, other}

pub record GateThresholds : Type 0 where
  pub price_min : Decimal
  pub price_max : Decimal
  pub max_jump_ratio : Signed
  pub volume_tolerance : Signed
  pub volume_min_baseline : ℕ

-- The defaults of the fields.
abbrev pub default_thresholds : GateThresholds
default_thresholds = record {
  price_min = decimal 0 0;
  price_max = decimal 1000000 0;
  max_jump_ratio = positive 10 1;
  volume_tolerance = positive 1 2;
  volume_min_baseline = 5;
}

-- `from_settings`: the prices are carried as strings, which `Decimal` reads back.
abbrev pub from_settings : Settings → GateThresholds
from_settings settings = record {
  price_min = settings.quality_price_min;
  price_max = settings.quality_price_max;
  max_jump_ratio = settings.quality_max_jump_ratio;
  volume_tolerance = settings.quality_volume_tolerance;
  volume_min_baseline = settings.quality_volume_min_baseline;
}

unfoldable pub check_range : Decimal → GateThresholds → Option QualityIssue
check_range amount t =
    if lt_decimal amount t.price_min || lt_decimal t.price_max amount
    then some out_of_range
    else none

-- The larger of the two quotients is compared with the limit.
abbrev pub jump : Decimal → Decimal → Ratio
jump new_amount prev_amount =
    max_ratio (quotient new_amount prev_amount) (quotient prev_amount new_amount)

-- ratio > limit, for a positive ratio.
abbrev pub exceeds : Signed → Ratio → Bool
exceeds limit r = limit.negative || lt_ratio limit.size r

unfoldable pub check_continuity : Decimal → Option Decimal → GateThresholds → Option QualityIssue
check_continuity new_amount none t = none
check_continuity new_amount (some prev_amount) t =
    if le_decimal prev_amount zero_amount || le_decimal new_amount zero_amount
    then none
    else if exceeds t.max_jump_ratio (jump new_amount prev_amount)
    then some discontinuous
    else none

-- count < baseline * (1 - tolerance), both sides times the denominator. Where a tolerance above 1 makes
-- the bound negative in the source it is 0 here: no count is below either.
abbrev pub below_band : ℕ → ℕ → Signed → Bool
below_band count baseline tolerance =
    let den = tolerance.size.den in
    let num = tolerance.size.num in
    if tolerance.negative
    then ltb (count * den) (baseline * (den + num))
    else ltb (count * den) (baseline * (den - num))

-- count > baseline * (1 + tolerance). Every count is above a bound that is negative, as it is for a
-- tolerance below -1 and a baseline that is not 0.
abbrev pub above_band : ℕ → ℕ → Signed → Bool
above_band count baseline tolerance =
    let den = tolerance.size.den in
    let num = tolerance.size.num in
    if tolerance.negative
    then (ltb den num && ltb 0 baseline) || ltb (baseline * (den - num)) (count * den)
    else ltb (baseline * (den + num)) (count * den)

unfoldable pub check_volume : ℕ → Option ℕ → GateThresholds → Option QualityIssue
check_volume count none t = none
check_volume count (some baseline) t =
    if ltb baseline t.volume_min_baseline
    then none
    else if below_band count baseline t.volume_tolerance
        || above_band count baseline t.volume_tolerance
    then some volume_anomaly
    else none

pub record QualityGatePipeline : Type 0 where
  pub enabled : Bool
  pub source_id : Text
  pub thresholds : GateThresholds
  pub prev_prices : Dict Decimal
  pub stats : PipelineStats

unfoldable pub open_spider :
    GateThresholds → PipelineStats → Spider → Database → QualityGatePipeline
open_spider thresholds stats spider db = record {
  enabled = is_enabled spider;
  source_id = source_id_of spider;
  thresholds = thresholds;
  prev_prices =
      if is_enabled spider then latest_amounts_for_source (source_id_of spider) db else [];
  stats = stats;
}

-- `first or second`, of two verdicts.
abbrev pub or_issue : Option QualityIssue → Option QualityIssue → Option QualityIssue
or_issue none second = second
or_issue (some issue) second = some issue

abbrev pub issue_of : QualityGatePipeline → NormalizedItem → Option QualityIssue
issue_of q item =
    or_issue (check_range item.observation.amount q.thresholds)
      (check_continuity item.observation.amount (get q.prev_prices item.product.id) q.thresholds)

-- `none` is DropItem.
abbrev pub judged :
    QualityGatePipeline → NormalizedItem → Option QualityIssue → Option Item × QualityGatePipeline
judged q item none = (some (normalized item), q)
judged q item (some issue) =
    (none, record q { stats = inc_stat (quality issue) (inc_stat items_rejected q.stats) })

unfoldable pub process_item : Item → QualityGatePipeline → Option Item × QualityGatePipeline
unfolding check_range check_continuity
process_item (normalized item) q =
    if q.enabled then judged q item (issue_of q item) else (some (normalized item), q)
process_item item q = (some item, q)
