-- ===== src/Api/Liveness.antt =====
-- The route `/health` of src/acquire_intel/api/health.py; whether the probe of the database raised is
-- its argument.
use acquire_intel.Prelude.{ℕ, Bool, true, false, Text, codes}

-- The body and the status code.
pub record Liveness : Type 0 where
  pub status : Text
  pub database : Text
  pub status_code : ℕ

-- `health`
abbrev health : Bool → Liveness
health true = record { status = codes "ok"; database = codes "ok"; status_code = 200 }
health false = record {
  status = codes "unavailable";
  database = codes "unreachable";
  status_code = 503;
}
