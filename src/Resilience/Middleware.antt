-- ===== src/Resilience/Middleware.antt =====
-- src/acquire_intel/resilience/middleware.py: what its four middlewares share. Of a Scrapy request
-- and response the model has the parts that they read or write; a method that raises answers `ignore`
-- for IgnoreRequest and `raised` for any other exception.
pub mod BanDetection
pub mod BackoffRetry
pub mod CircuitBreaker
pub mod Rotation
pub mod Chain
use acquire_intel.Prelude.{
  ℕ, Bool, true, false, ◌&&◌, ◌||◌, not, Option, none, some, List, [], ◌∷◌, ◌++◌, leb, ◌==◌,
  if◌then◌else◌, Text, codes, Dict, starts_with,
}
use acquire_intel.Resilience.Classifier.{Classification, ok, rate_limited, BanKind, BanAction}

-- `meta` holds the two retry counters, the cookie jar, the proxy and the mark of infrastructure
-- requests such as robots.txt.
pub record Request : Type 0 where
  pub url : Text
  pub dont_obey_robotstxt : Bool
  pub backoff_retries : Option ℕ
  pub rotation_attempts : Option ℕ
  pub cookiejar : Option Text
  pub proxy : Option Text
  pub headers : Dict Text
  pub dont_filter : Bool

pub record Response : Type 0 where
  pub status : ℕ
  pub body : Text
  pub set_cookie : Option Text
  pub retry_after : Option Text

pub data Outcome : Type 0 where
  pass : Response → Outcome
  retry : (delay : ℕ) → Request → Outcome
  ignore raised : Outcome

pub data Stat : Type 0 where
  ban_events : Stat
  ban : BanKind → Stat
  backoff_retries backoff_exhausted circuit_tripped circuit_skipped : Stat
  identity_rotations cookie_retries rotation_exhausted : Stat

-- The calls of `stats.inc_value`, in order; `none` where there is no collector.
abbrev pub Stats : Type 0
Stats = Option (List Stat)

abbrev pub inc_value : Stat → Stats → Stats
inc_value s none = none
inc_value s (some calls) = some (calls ++ s ∷ [])

-- request.meta.get(key, 0)
abbrev pub counter : Option ℕ → ℕ
counter none = 0
counter (some n) = n

abbrev pub is_infra_request : Request → Bool
is_infra_request request = request.dont_obey_robotstxt

-- Whether a header is there and not empty.
abbrev pub present : Option Text → Bool
present none = false
present (some []) = false
present (some (c ∷ s)) = true

is_alpha : ℕ → Bool
is_alpha c = (leb b'A' c && leb c b'Z') || (leb b'a' c && leb c b'z')

is_scheme_char : ℕ → Bool
unfolding is_alpha
is_scheme_char c =
    is_alpha c || ((leb b'0' c && leb c b'9') || (c == b'+' || (c == b'-' || c == b'.')))

-- What stands behind the first colon, if only scheme characters stand before it.
behind_scheme : Text → Option Text
unfolding is_scheme_char
behind_scheme [] = none
behind_scheme (c ∷ s) =
    let rest = behind_scheme s in
    if c == b':' then some s else if is_scheme_char c then rest else none

until_delimiter : Text → Text
until_delimiter [] = []
until_delimiter (c ∷ s) =
    let rest = until_delimiter s in if c == b'/' || (c == b'?' || c == b'#') then [] else c ∷ rest

without_scheme : Text → Text
unfolding behind_scheme is_alpha
without_scheme [] = []
without_scheme (c ∷ s) =
    if is_alpha c then elim (behind_scheme (c ∷ s)) [ none ↦ c ∷ s | some rest ↦ rest ] else c ∷ s

abbrev tail_of_tail : Text → Text
tail_of_tail (a ∷ b ∷ s) = s
tail_of_tail _ = []

-- urlparse(url).netloc
unfoldable pub domain : Text → Text
unfolding without_scheme until_delimiter starts_with
domain url =
    let rest = without_scheme url in
    if starts_with rest (codes "//") then until_delimiter (tail_of_tail rest) else []

-- `_CIRCUIT_FAILURES`, which is also `_ROTATE_ON`.
abbrev pub is_circuit_failure : Classification → Bool
is_circuit_failure ok = false
is_circuit_failure rate_limited = false
is_circuit_failure _ = true
