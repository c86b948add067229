-- ===== src/Analytics/Drift.antt =====
-- `assess_drift` of src/acquire_intel/analytics/drift.py. The limit is an exact fraction.
use acquire_intel.Prelude.{ℕ, ◌-◌, Bool, false, ◌||◌, ltb, ◌==◌, if◌then◌else◌}
use acquire_intel.Prelude.Ratio.{Ratio, ratio, lt_ratio}

-- More entries mapped than seen would make the source's ratio negative, and the model's 0: neither is
-- above the limit.
unfoldable pub assess_drift : ℕ → ℕ → ℕ → Ratio → Bool
assess_drift entries_seen entries_mapped min_entries max_unmapped_ratio =
    if ltb entries_seen min_entries || entries_seen == 0
    then false
    else lt_ratio max_unmapped_ratio (ratio (entries_seen - entries_mapped) entries_seen)
