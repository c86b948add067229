-- ===== src/Api/Admin.antt =====
-- The route `POST /admin/crawl` of src/acquire_intel/api/admin.py. `clock` is `time.monotonic()` in
-- seconds, `now` the time of the wall clock; what the crawl trigger reads is a parameter as there.
pub mod Laws
pub mod Rate
mod Tests
use acquire_intel.Prelude.{
  ℕ, Bool, true, false, ◌&&◌, Option, none, some, List, [], ◌∷◌, ◌++◌, if◌then◌else◌, ltb, Text,
  codes, eqb, starts_with, drop, is_empty,
}
use acquire_intel.Config.{Settings}
use acquire_intel.Storage.Models.{Database}
use acquire_intel.Acquisition.Orchestrator.{
  TriggeredRun, Trigger, unknown_source, triggered, trigger_crawl,
}
use acquire_intel.Acquisition.Sources.Json.{
  Json, null, string, object, Fields, field, end, get, truthy,
}
use acquire_intel.Api.Problems.{Problem, problem, internal_error}
use acquire_intel.Api.RateLimiter.{RateLimiter, new_limiter, allow}

unfoldable all_ascii : Text → Bool
all_ascii [] = true
all_ascii (c ∷ s) = ltb c 128 && all_ascii s

-- hmac.compare_digest(a, b) of two `str`; `none` is the TypeError for text beyond ASCII.
unfoldable pub compare_digest : Text → Text → Option Bool
unfolding eqb all_ascii
compare_digest a b = if all_ascii a && all_ascii b then some (eqb a b) else none

abbrev header_or : Option Text → Text
header_or none = []
header_or (some header) = header

-- `_authorized`, of the configured token and the header `Authorization`.
unfoldable pub is_authorized : Text → Option Text → Option Bool
unfolding starts_with compare_digest
is_authorized admin_token header =
    if starts_with (header_or header) (codes "Bearer ")
    then compare_digest (drop 7 (header_or header)) admin_token
    else some false

-- `_CrawlRequest.model_validate`: no key but `source`, which is a text or null.
unfoldable only_source : Fields → Bool
unfolding eqb
only_source end = true
only_source (field key value rest) = eqb key (codes "source") && only_source rest

abbrev source_of : Json → Option (Option Text)
source_of null = some none
source_of (string s) = some (some s)
source_of _ = none

abbrev validated : Json → Option (Option Text)
validated (object d) = if only_source d then source_of (get d (codes "source")) else none
validated _ = none

-- request.get_json(silent=True) or {}
abbrev payload_of : Option Json → Json
payload_of none = object end
payload_of (some payload) = if truthy payload then payload else object end

unfoldable pub crawl_request : Option Json → Option (Option Text)
unfolding only_source get
crawl_request body = validated (payload_of body)

-- [payload.source] if payload.source else None
abbrev pub source_ids : Option Text → Option (List Text)
source_ids none = none
source_ids (some source) = if is_empty source then none else some (source ∷ [])

pub record Request : Type 0 where
  pub authorization : Option Text
  pub body : Option Json

-- The app: its limiter, once there is one, and the database behind it.
pub record App : Type 0 where
  pub limiter : Option RateLimiter
  pub db : Database

-- `_limiter`
abbrev pub limiter_of : Settings → Option RateLimiter → RateLimiter
limiter_of settings none = new_limiter settings.admin_rate_limit_per_minute 60
limiter_of settings (some limiter) = limiter

pub data CrawlReply : Type 0 where
  refused : Problem → CrawlReply
  accepted : List TriggeredRun → CrawlReply

abbrev pub unauthorized : Problem
unauthorized = problem 401 (codes "Unauthorized") (codes "Missing or invalid admin token")

abbrev pub too_many_requests : Problem
too_many_requests =
    problem 429 (codes "Too Many Requests") (codes "Admin crawl rate limit exceeded")

abbrev pub invalid_request : Problem
invalid_request = problem 400 (codes "Invalid request") (codes "body must be {source?: string}")

-- The detail prints the id as a Python literal.
abbrev pub no_such_source : (Text → Text) → Text → Problem
no_such_source quoted sid =
    problem 404 (codes "Unknown source") (codes "No registered source " ++ quoted sid)

-- What the crawl trigger reads: the registry of spiders, the order of ids, new ids and the time.
pub record Outside : Type 0 where
  pub quoted : Text → Text
  pub has_spider : Text → Bool
  pub order_by_id : List Text → List Text
  pub fresh : ℕ → Text
  pub now : ℕ

-- An answer, the crawls launched with it, and the app after it.
abbrev pub Answer : Type 0
Answer = CrawlReply × List (Text × Text) × App

abbrev crawled :
    (Text → Text) → Option RateLimiter → Trigger × List (Text × Text) × Database → Answer
crawled quoted limiter (unknown_source sid, launched, db) =
    (refused (no_such_source quoted sid), launched, record { limiter = limiter; db = db })
crawled quoted limiter (triggered runs, launched, db) =
    (accepted runs, launched, record { limiter = limiter; db = db })

abbrev with_body : Outside → App → Option (Option Text) → Answer
with_body o app none = (refused invalid_request, [], app)
with_body o app (some source) =
    crawled o.quoted app.limiter
      (trigger_crawl o.has_spider o.order_by_id (source_ids source) o.fresh o.now app.db)

abbrev within_limit : Outside → Request → App → Bool × RateLimiter → Answer
within_limit o request app (allowed, limiter) =
    let app' : App = record app { limiter = some limiter } in
    if allowed
    then with_body o app' (crawl_request request.body)
    else (refused too_many_requests, [], app')

abbrev with_token : Settings → Outside → ℕ → Request → App → Option Bool → Answer
with_token settings o clock request app none = (refused internal_error, [], app)
with_token settings o clock request app (some false) = (refused unauthorized, [], app)
with_token settings o clock request app (some true) =
    within_limit o request app (allow clock (limiter_of settings app.limiter))

unfoldable pub trigger : Settings → Outside → ℕ → Request → App → Answer
unfolding is_authorized allow crawl_request trigger_crawl
trigger settings o clock request app =
    with_token settings o clock request app
      (is_authorized settings.admin_token request.authorization)
