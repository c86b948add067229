-- ===== src/Config.antt =====
-- `Settings` of src/acquire_intel/config/settings.py. Times are in milliseconds, rates exact fractions
-- and the deal threshold hundredths of a percent; pydantic reads the values from the environment.
mod Tests
use acquire_intel.Prelude.{
  ℕ, Bool, true, false, Text, codes, [], List, ◌∷◌, ◌++◌, if◌then◌else◌, ◌==◌, strip, is_empty,
}
use acquire_intel.Prelude.Ratio.{Ratio, ratio, Signed, positive}
use acquire_intel.Storage.Decimal.{Decimal, decimal}

pub record Settings : Type 0 where
  pub database_url : Text
  pub flask_secret_key : Text
  pub admin_token : Text
  pub api_base_path : Text
  pub contact_user_agent : Text
  pub robotstxt_obey : Bool
  pub proxy_pool : Text
  pub default_download_delay : ℕ
  pub autothrottle_enabled : Bool
  pub concurrent_requests_per_domain : ℕ
  pub autothrottle_max_delay : ℕ
  pub autothrottle_target_concurrency : Ratio
  pub backoff_max_retries : ℕ
  pub backoff_base_delay : ℕ
  pub backoff_max_delay : ℕ
  pub circuit_failure_threshold : ℕ
  pub circuit_cooldown_seconds : ℕ
  pub proxy_cooldown_seconds : ℕ
  pub rotation_max_attempts : ℕ
  pub quality_price_min : Decimal
  pub quality_price_max : Decimal
  pub quality_max_jump_ratio : Signed
  pub quality_volume_tolerance : Signed
  pub quality_volume_min_baseline : ℕ
  pub drift_min_entries : ℕ
  pub drift_max_unmapped_ratio : Ratio
  pub deal_min_drop_pct : ℕ
  pub deal_window_days : ℕ
  pub admin_rate_limit_per_minute : ℕ
  pub scheduler_enabled : Bool
  pub scheduler_interval_seconds : ℕ
  pub health_recent_runs : ℕ
  pub health_degraded_ban_rate : Ratio
  pub health_fail_ban_rate : Ratio
  pub harness_base_url : Text

abbrev whole : ℕ → Decimal
whole n = decimal n 0

-- The settings where only the required variables are set.
abbrev pub defaults : Text → Text → Text → Settings
defaults database_url flask_secret_key admin_token = record {
  database_url = database_url;
  flask_secret_key = flask_secret_key;
  admin_token = admin_token;
  api_base_path = codes "/api/v1";
  contact_user_agent = codes "AcquireIntelBot/0.1 (+contact@example.com)";
  robotstxt_obey = true;
  proxy_pool = [];
  default_download_delay = 1000;
  autothrottle_enabled = true;
  concurrent_requests_per_domain = 8;
  autothrottle_max_delay = 10000;
  autothrottle_target_concurrency = ratio 4 1;
  backoff_max_retries = 3;
  backoff_base_delay = 500;
  backoff_max_delay = 30000;
  circuit_failure_threshold = 5;
  circuit_cooldown_seconds = 60000;
  proxy_cooldown_seconds = 60000;
  rotation_max_attempts = 4;
  quality_price_min = whole 0;
  quality_price_max = whole 1000000;
  quality_max_jump_ratio = positive 10 1;
  quality_volume_tolerance = positive 1 2;
  quality_volume_min_baseline = 5;
  drift_min_entries = 1;
  drift_max_unmapped_ratio = ratio 1 2;
  deal_min_drop_pct = 1000;
  deal_window_days = 90;
  admin_rate_limit_per_minute = 6;
  scheduler_enabled = false;
  scheduler_interval_seconds = 3600;
  health_recent_runs = 5;
  health_degraded_ban_rate = ratio 1 5;
  health_fail_ban_rate = ratio 1 2;
  harness_base_url = codes "http://localhost:8999";
}

-- text.split(",")
abbrev with_char : ℕ → List Text → List Text
with_char c [] = (c ∷ []) ∷ []
with_char c (part ∷ parts) = (c ∷ part) ∷ parts

unfoldable pub split_commas : Text → List Text
split_commas [] = [] ∷ []
split_commas (c ∷ s) =
    let parts = split_commas s in if c == 44 then [] ∷ parts else with_char c parts

-- [p.strip() for p in parts if p.strip()]
unfoldable pub stripped : List Text → List Text
unfolding strip
stripped [] = []
stripped (part ∷ parts) =
    let rest = stripped parts in if is_empty (strip part) then rest else strip part ∷ rest

-- `proxy_urls`
unfoldable pub proxy_urls : Settings → List Text
unfolding split_commas stripped
proxy_urls s = stripped (split_commas s.proxy_pool)
