-- ===== src/Api/Admin/Laws.antt =====
-- What the admin route does on each of its branches, and how often it can start a crawl.
use acquire_intel.Prelude.{ℕ, ◌≡◌, refl, Bool, true, false, Option, none, some, List, [], Text}
use acquire_intel.Storage.Models.{Database}
use acquire_intel.Config.{Settings}
use acquire_intel.Acquisition.Orchestrator.{
  TriggeredRun, Trigger, trigger_crawl, list_ids, first_unknown, launches, Outcome, Opened,
  trigger_crawl-Outcome,
}
use acquire_intel.Api.Problems.{internal_error}
use acquire_intel.Api.RateLimiter.{RateLimiter, allow}
use acquire_intel.Api.Admin.{
  is_authorized, crawl_request, source_ids, Request, App, limiter_of, refused, accepted,
  unauthorized, too_many_requests, invalid_request, no_such_source, Outside, Answer, crawled,
  with_body, within_limit, with_token, trigger,
}

-- The sources that a request is about, and the first of them that cannot be crawled.
abbrev pub asked : Outside → Database → Option (List Text) → List Text × Option Text
asked o db none = (list_ids o.order_by_id db, none)
asked o db (some ids) = (ids, first_unknown o.has_spider (list_ids o.order_by_id db) ids)

-- What an answer is, once the caller is let by, with the limiter that this leaves.
pub data Served (o : Outside) (request : Request) (db : Database) (l : RateLimiter)
    : Answer → Type 0 where
  malformed :
      crawl_request request.body ≡ none
      → Served o request db l (refused invalid_request, [], record { limiter = some l; db = db })
  unknown :
      (source : Option Text) (sid : Text)
      → crawl_request request.body ≡ some source
      → (asked o db (source_ids source)).1 ≡ some sid
      → Served o request db l
          (refused (no_such_source o.quoted sid), [], record { limiter = some l; db = db })
  launched :
      (source : Option Text) (runs : List TriggeredRun) (db' : Database)
      → crawl_request request.body ≡ some source
      → (asked o db (source_ids source)).1 ≡ none
      → Opened (asked o db (source_ids source)).0 db runs db'
      → Served o request db l (accepted runs, launches runs, record { limiter = some l; db = db' })

-- What an answer is.
pub data Answered (s : Settings) (o : Outside) (clock : ℕ) (request : Request) (app : App)
    : Answer → Type 0 where
  rejected :
      is_authorized s.admin_token request.authorization ≡ some false
      → Answered s o clock request app (refused unauthorized, [], app)
  crashed :
      is_authorized s.admin_token request.authorization ≡ none
      → Answered s o clock request app (refused internal_error, [], app)
  limited :
      (l : RateLimiter)
      → is_authorized s.admin_token request.authorization ≡ some true
      → allow clock (limiter_of s app.limiter) ≡ (false, l)
      → Answered s o clock request app
          (refused too_many_requests, [], record { limiter = some l; db = app.db })
  served :
      (l : RateLimiter) (answer : Answer)
      → is_authorized s.admin_token request.authorization ≡ some true
      → allow clock (limiter_of s app.limiter) ≡ (true, l)
      → Served o request app.db l answer
      → Answered s o clock request app answer

trigger_crawl-asked :
    (o : Outside) (db : Database) (ids : Option (List Text))
    → Outcome
        (asked o db ids).0
        (asked o db ids).1
        db
        (trigger_crawl o.has_spider o.order_by_id ids o.fresh o.now db)
trigger_crawl-asked o db none =
    (trigger_crawl-Outcome o.has_spider o.order_by_id o.fresh o.now db).0
trigger_crawl-asked o db (some ids) =
    (trigger_crawl-Outcome o.has_spider o.order_by_id o.fresh o.now db).1 ids

crawled-Served :
    (o : Outside) (request : Request) (db : Database) (l : RateLimiter) (source : Option Text)
    → crawl_request request.body ≡ some source
    → (unknown : Option Text) → (asked o db (source_ids source)).1 ≡ unknown
    → (r : Trigger × List (Text × Text) × Database)
    → Outcome (asked o db (source_ids source)).0 unknown db r
    → Served o request db l (crawled o.quoted (some l) r)
crawled-Served o request db l source b none e (answer, crawls, db') (runs, a, k, opened) =
    rw (a, k) (launched source runs db' b e opened)
crawled-Served o request db l source b (some sid) e (answer, crawls, db') (a, k, same) =
    rw (a, k, same) (unknown source sid b e)

with_body-Served :
    (o : Outside) (request : Request) (app : App) (l : RateLimiter)
    → (body : Option (Option Text)) → crawl_request request.body ≡ body
    → Served o request app.db l (with_body o (record app { limiter = some l }) body)
with_body-Served o request app l none e = malformed e
with_body-Served o request app l (some source) e =
    crawled-Served o request app.db l source e (asked o app.db (source_ids source)).1 refl _
      (trigger_crawl-asked o app.db (source_ids source))

within_limit-Answered :
    (s : Settings) (o : Outside) (clock : ℕ) (request : Request) (app : App)
    → is_authorized s.admin_token request.authorization ≡ some true
    → (r : Bool × RateLimiter) → allow clock (limiter_of s app.limiter) ≡ r
    → Answered s o clock request app (within_limit o request app r)
within_limit-Answered s o clock request app a (false, l) e = limited l a e
within_limit-Answered s o clock request app a (true, l) e =
    served l _ a e (with_body-Served o request app l (crawl_request request.body) refl)

with_token-Answered :
    (s : Settings) (o : Outside) (clock : ℕ) (request : Request) (app : App)
    → (t : Option Bool) → is_authorized s.admin_token request.authorization ≡ t
    → Answered s o clock request app (with_token s o clock request app t)
with_token-Answered s o clock request app none e = crashed e
with_token-Answered s o clock request app (some false) e = rejected e
with_token-Answered s o clock request app (some true) e =
    within_limit-Answered s o clock request app e _ refl

-- The admin route checks the token first: without a right one the answer is 401, or 500 where the
-- comparison raises, and neither the limiter nor the database changes. Then the limiter is asked,
-- and a refusal is a 429. Only then the body is read: a malformed one is a 400, a source that
-- cannot be crawled a 404. None of these launches anything or changes the database. In all other
-- cases there is one new running row and one launch for each source asked for.
pub trigger-Answered :
    (s : Settings) (o : Outside) (clock : ℕ) (request : Request) (app : App)
    → Answered s o clock request app (trigger s o clock request app)
unfolding trigger
trigger-Answered s o clock request app = with_token-Answered s o clock request app _ refl
