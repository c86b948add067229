-- ===== src/Pipeline/Quality/Laws.antt =====
-- What the gates guarantee.
use acquire_intel.Prelude.{Bool, ◌||◌, Option, none, some, if◌then◌else◌}
use acquire_intel.Prelude.Ratio.{Ratio, Signed}
use acquire_intel.Storage.Decimal.{Decimal}
use acquire_intel.Pipeline.Spiders.{QualityIssue, discontinuous}
use acquire_intel.Pipeline.Quality.{exceeds}

abbrev verdict : Bool → Bool → Signed → Ratio → Option QualityIssue
verdict x y limit m = if x || y then none else if exceeds limit m then some discontinuous else none
