-- ===== src/Api/Admin/Tests.antt =====
-- Calls of the admin route.
use acquire_intel.Prelude.{
  ℕ, ◌≡◌, ◌≤◌, refl, true, none, some, List, [], ◌∷◌, ◌++◌, codes, Text, show, builtins, arith,
}
use acquire_intel.Storage.Models.{Database}
use acquire_intel.Config.{Settings, defaults}
use acquire_intel.Acquisition.Orchestrator.{trigger_crawl}
use acquire_intel.Acquisition.Sources.Json.{get, get_or}
use acquire_intel.Api.Problems.{internal_error}
use acquire_intel.Api.RateLimiter.{allow, expire, within}
use acquire_intel.Api.Admin.{
  is_authorized, crawl_request, compare_digest, Request, App, refused, Outside, trigger,
}
use acquire_intel.Api.Admin.Laws.{Answered, trigger-Answered}
use acquire_intel.Api.Admin.Rate.{Call, trigger_all, accepted_times, accepts-within}

abbrev settings : Settings
settings = record (defaults [] [] (codes "s3cret")) { admin_rate_limit_per_minute = 1 }

abbrev outside : Outside
outside = record {
  quoted = λ s. codes "'" ++ s ++ codes "'";
  has_spider = λ id. true;
  order_by_id = λ ids. ids;
  fresh = show;
  now = 1000;
}

abbrev store : Database
store = record {
  sources =
      record {
        id = codes "demo_rest";
        kind = codes "rest";
        base_url = codes "https://shop.example.com";
        stale_after_seconds = 21600;
        default_currency = none;
        schedule_seconds = none;
      }
      ∷ [];
  products = [];
  crawl_runs = [];
  price_observations = [];
  ban_events = [];
}

abbrev new_app : App
new_app = record { limiter = none; db = store }

abbrev request_with : Text → Request
request_with token = record { authorization = some (codes "Bearer " ++ token); body = none }

abbrev call : ℕ → Text → Call
call clock token = record { clock = clock; outside = outside; request = request_with token }

abbrev calls : List Call
calls =
    call 1 (codes "guess")
    ∷ call 2 (codes "s3cret")
    ∷ call 3 (codes "s3cret")
    ∷ call 62 (codes "s3cret")
    ∷ []

-- The first has no right token, the third comes too soon.
second_and_last : accepted_times (trigger_all settings calls new_app) ≡ 2 ∷ 62 ∷ []
unfolding accepted_times trigger_all trigger is_authorized compare_digest allow expire crawl_request
    trigger_crawl get get_or builtins
second_and_last = refl

-- A token beyond ASCII makes the comparison raise.
beyond_ascii :
    (trigger settings outside 1 (request_with (233 ∷ [])) new_app).0 ≡ refused internal_error
unfolding trigger is_authorized compare_digest builtins
beyond_ascii = refl

trigger-Answered_example :
    Answered settings outside 2
      (request_with (codes "s3cret"))
      new_app
      (trigger settings outside 2 (request_with (codes "s3cret")) new_app)
trigger-Answered_example =
    trigger-Answered settings outside 2 (request_with (codes "s3cret")) new_app

accepts-within_example : within 60 62 (accepted_times (trigger_all settings calls new_app)) ≤ 1
accepts-within_example =
    accepts-within settings calls store 62
      (omega arith, (omega arith, (omega arith, (omega arith, tt)))) (omega arith)
