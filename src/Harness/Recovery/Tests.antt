-- ===== src/Harness/Recovery/Tests.antt =====
-- The rate-limited scenario under the default settings.
use acquire_intel.Prelude.{
  ℕ, ◌≡◌, refl, false, Option, none, some, [], arith, codes, Text, builtins,
}
use acquire_intel.Config.{Settings, defaults, proxy_urls, split_commas, stripped}
use acquire_intel.Resilience.Backoff.{Random}
use acquire_intel.Resilience.Classifier.{ok, captcha, classify, has_marker, scanned_text, lower}
use acquire_intel.Resilience.Identity.{identity}
use acquire_intel.Resilience.Identity as Identity
use acquire_intel.Resilience.Identity.Catalogue.{chrome_win, default_profiles}
use acquire_intel.Resilience.Proxy.{acquire}
use acquire_intel.Resilience.Proxy as Proxy
use acquire_intel.Resilience.Middleware.{Request}
use acquire_intel.Resilience.Middleware.Rotation.{new_rotation}
use acquire_intel.Resilience.Middleware.Chain.{delivered, Layer, fetch}
use acquire_intel.Resilience.Middleware.Chain.Configured.{layer_of, rotation_of}
use acquire_intel.Acquisition.Sources.Json.{Json}
use acquire_intel.Harness.Scenarios.{default_config, happy_page}
use acquire_intel.Harness.Server.{Call, json_response, challenge_html, count_of}
use acquire_intel.Harness.Recovery.{mock, rate_limit_recovers}

abbrev highest : Random
highest = record { Rng = Unit {0}; uniform = λ r cap. (cap, r); uniform_le = λ r cap. omega arith }

abbrev no_float : Text → Option ℕ
no_float s = none

abbrev settings : Settings
settings = defaults [] [] []

abbrev braces : Json → Text
braces j = codes "{}"

abbrev as_cookie : Text → Text → Text
as_cookie name value = name

abbrev call : Call
call = record {
  scenario = codes "rate_limited";
  page = 1;
  headers = [];
  remote_addr = none;
  cookies = [];
}

abbrev start : Layer highest no_float
start = record {
  backoff = record {
    policy = record { base_delay = 500; max_delay = 30000; max_retries = 3 };
    stats = some [];
    rng = tt;
  };
  circuit = record {
    registry = record { failure_threshold = 5; cooldown_seconds = 60000; breakers = [] };
    stats = some [];
  };
  rotation = record {
    identities = record {
      profiles = default_profiles;
      index = 0;
      generation = 0;
      current = identity chrome_win 0;
    };
    proxies = record { ordered = []; cooldown_seconds = 60000; health = []; cursor = 0 };
    max_attempts = 4;
    stats = some [];
    escalated = false;
    proxy = none;
  };
  gate = record { stats = some []; sink = some [] };
}

start_made : layer_of highest no_float settings 0 tt (some []) ≡ some start
unfolding layer_of rotation_of new_rotation Identity.new_pool Proxy.new_pool acquire proxy_urls
    split_commas stripped builtins
start_made = refl

abbrev first_page : Request
first_page = record {
  url = codes "http://127.0.0.1:8080/rate_limited/products.json";
  dont_obey_robotstxt = false;
  backoff_retries = none;
  rotation_attempts = none;
  cookiejar = none;
  proxy = none;
  headers = [];
  dont_filter = false;
}

unseen : (key : Text × Text) → count_of [] key ≡ 0
unfolding count_of
unseen key = refl

braces_ok : classify 200 (codes "{}") ≡ ok
unfolding classify has_marker scanned_text lower builtins
braces_ok = refl

rate_limit_recovers_example :
    (fetch highest no_float
      (mock braces as_cookie default_config (λ url headers jar proxy. call))
      3
      start
      (record { counts = []; now = 0 })
      first_page).0
    ≡ delivered (json_response braces as_cookie (happy_page 1 250) 200)
rate_limit_recovers_example =
    rate_limit_recovers braces as_cookie default_config (λ url headers jar proxy. call) highest
      no_float call settings 0 tt (some []) start 3 (record { counts = []; now = 0 }) first_page
      start_made refl braces_ok refl refl (unseen _) refl (omega arith) (omega arith) (omega arith)

-- A challenge is told by its markers, though its status is 200.
challenge_caught : classify 200 challenge_html ≡ captcha
unfolding classify has_marker scanned_text lower builtins
challenge_caught = refl
