-- ===== src/Resilience/Middleware/Chain/Tests.antt =====
-- A crawl of one request past a server that blocks until it sees a browser identity.
use acquire_intel.Prelude.{
  ℕ, ◌+◌, ◌≡◌, refl, false, Option, none, some, [], arith, inl, codes, Text, get, builtins,
}
use acquire_intel.Resilience.Backoff.{Random}
use acquire_intel.Resilience.Circuit.{for_domain, allow, record_success, record_failure}
use acquire_intel.Resilience.Classifier.{classify, has_marker, scanned_text, lower}
use acquire_intel.Resilience.Identity.{IdentityPool, identity}
use acquire_intel.Resilience.Identity.Catalogue.{chrome_win, default_profiles}
use acquire_intel.Resilience.Proxy.{ProxyPool, acquire, record_success as proxy_success, record_ban}
use acquire_intel.Resilience.Middleware.{Request, Response, domain}
use acquire_intel.Resilience.Middleware.BackoffRetry
use acquire_intel.Resilience.Middleware.CircuitBreaker
use acquire_intel.Resilience.Middleware.CircuitBreaker.{observe}
use acquire_intel.Resilience.Middleware.Rotation
use acquire_intel.Resilience.Middleware.Rotation.{stamp_identity, escalate, bounded_retry}
use acquire_intel.Resilience.Middleware.BanDetection
use acquire_intel.Resilience.Middleware.Chain.{delivered, World, Layer, process_response, fetch}
use acquire_intel.Resilience.Middleware.Chain.Fetch.{LayerValid, Ends, fetch-Ends}

abbrev highest : Random
highest = record { Rng = Unit {0}; uniform = λ r cap. (cap, r); uniform_le = λ r cap. omega arith }

abbrev no_float : Text → Option ℕ
no_float s = none

abbrev page : ℕ → Text → Response
page status body = record { status = status; body = body; set_cookie = none; retry_after = none }

abbrev answer : Option Text → Response
answer none = page 403 (codes "Forbidden")
answer (some agent) = page 200 (codes "{}")

-- The state is the clock.
abbrev shop : World
shop = record {
  State = ℕ;
  respond = λ now request. (answer (get request.headers (codes "User-Agent")), now + 1);
  clock = λ now. now;
  wait = λ delay now. now + delay;
}

abbrev identities : IdentityPool
identities = record {
  profiles = default_profiles;
  index = 0;
  generation = 0;
  current = identity chrome_win 0;
}

abbrev direct : ProxyPool
direct = record { ordered = []; cooldown_seconds = 60; health = []; cursor = 0 }

abbrev start : Layer highest no_float
start = record {
  backoff = record {
    policy = record { base_delay = 500; max_delay = 30000; max_retries = 3 };
    stats = some [];
    rng = tt;
  };
  circuit = record {
    registry = record { failure_threshold = 5; cooldown_seconds = 60; breakers = [] };
    stats = some [];
  };
  rotation = record {
    identities = identities;
    proxies = direct;
    max_attempts = 4;
    stats = some [];
    escalated = false;
    proxy = none;
  };
  gate = record { stats = some []; sink = some [] };
}

abbrev first_page : Request
first_page = record {
  url = codes "https://shop.example.com/products.json";
  dont_obey_robotstxt = false;
  backoff_retries = none;
  rotation_attempts = none;
  cookiejar = none;
  proxy = none;
  headers = [];
  dont_filter = false;
}

host : domain first_page.url ≡ codes "shop.example.com"
unfolding domain
host = refl

start-LayerValid : LayerValid highest no_float start
unfolding get
start-LayerValid = record {
  registry = record { at = λ h b e. cc };
  rotation = record {
    identities = record { profile = chrome_win; listed = refl; placed = omega arith; built = refl };
    proxies = record { tracked = tt; placed = inl refl };
  };
  retries = omega arith;
}

fetch-Ends_example : Ends (fetch highest no_float shop 8 start 0 first_page).0
fetch-Ends_example =
    fetch-Ends highest no_float shop 8 start 0 first_page start-LayerValid refl (omega arith)

-- The first answer is a block; the retry under the browser identity is let through.
recovers : (fetch highest no_float shop 8 start 0 first_page).0 ≡ delivered (page 200 (codes "{}"))
unfolding fetch process_response domain Rotation.process_request Rotation.process_response
    CircuitBreaker.process_request CircuitBreaker.process_response BackoffRetry.process_response
    BanDetection.process_response observe stamp_identity escalate bounded_retry for_domain allow
    record_success record_failure classify has_marker scanned_text lower acquire proxy_success
    record_ban builtins
recovers = refl
