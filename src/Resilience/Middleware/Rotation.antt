-- ===== src/Resilience/Middleware/Rotation.antt =====
-- `IdentityRotationMiddleware`: on a persistent block, change identity and proxy and retry.
use acquire_intel.Prelude.{
  ℕ, ◌+◌, Bool, true, false, Option, none, some, [], ◌∷◌, leb, if◌then◌else◌, Text, codes, Dict,
  put,
}
use acquire_intel.Resilience.Classifier.{
  Classification, ok, rate_limited, blocked, captcha, empty, classify,
}
use acquire_intel.Resilience.Identity.{Identity, IdentityPool, rotate}
use acquire_intel.Resilience.Proxy.{ProxyPool, acquire, record_success, record_ban}
use acquire_intel.Resilience.Middleware.{
  Request, Response, Outcome, pass, retry, raised, Stat, Stats, inc_value, counter,
  is_infra_request, present,
}

pub record Rotation : Type 0 where
  pub identities : IdentityPool
  pub proxies : ProxyPool
  pub max_attempts : ℕ
  pub stats : Stats
  pub escalated : Bool
  pub proxy : Option Text

-- `__init__`, which takes the first proxy; `none` where `acquire` raises.
unfoldable pub new_rotation : ℕ → IdentityPool → ProxyPool → ℕ → Stats → Option Rotation
new_rotation now identities proxies max_attempts stats = elim (acquire now proxies) [
  | none ↦ none
  | some (proxy, proxies') ↦ some (record {
    identities = identities;
    proxies = proxies';
    max_attempts = max_attempts;
    stats = stats;
    escalated = false;
    proxy = proxy;
  })
]

-- The loop over the headers of the identity.
stamp_headers : Dict Text → Dict Text → Dict Text
stamp_headers headers [] = headers
stamp_headers headers ((name, value) ∷ more) = stamp_headers (put headers name value) more

unfoldable pub stamp_identity : Identity → Request → Request
unfolding stamp_headers
stamp_identity identity request = record request {
  headers =
      stamp_headers (put request.headers (codes "User-Agent") identity.profile.user_agent)
        identity.profile.headers;
  cookiejar = some identity.key;
}

abbrev pub stamp_proxy : Option Text → Request → Request
stamp_proxy none request = request
stamp_proxy (some proxy) request = record request { proxy = some proxy }

unfoldable pub process_request : Request → Rotation → Request
process_request request m =
    if is_infra_request request
    then request
    else stamp_proxy m.proxy
        (if m.escalated then stamp_identity m.identities.current request else request)

-- The first block adopts the current browser identity, a later one moves on.
unfoldable pub escalate : Rotation → Option Rotation
escalate m =
    if m.escalated
    then elim (rotate m.identities) [
      | none ↦ none
      | some ids ↦ some (record m { identities = ids })
    ]
    else some (record m { escalated = true })

unfoldable pub bounded_retry : Request → Stat → Rotation → Option Request × Rotation
bounded_retry request stat m =
    let attempts = counter request.rotation_attempts in
    if leb m.max_attempts attempts then (none, m) else (
      some (record request { dont_filter = true; rotation_attempts = some (attempts + 1) }),
      record m { stats = inc_value stat m.stats },
    )

abbrev pub cookie_retry : Response → Option Request × Rotation → Outcome × Rotation
cookie_retry response (none, m) = (pass response, m)
cookie_retry response (some request, m) = (retry 0 request, m)

abbrev pub next_proxy : Request → Rotation → Option (Option Text × ProxyPool) → Outcome × Rotation
next_proxy request m none = (raised, m)
next_proxy request m (some (proxy, proxies)) =
    (retry 0 request, record m { proxies = proxies; proxy = proxy })

abbrev pub escalated_retry : ℕ → Request → Rotation → Option Rotation → Outcome × Rotation
escalated_retry now request m none = (raised, m)
escalated_retry now request m (some m') = next_proxy request m' (acquire now m'.proxies)

abbrev pub rotation_retry : ℕ → Response → Option Request × Rotation → Outcome × Rotation
rotation_retry now response (none, m) =
    (pass response, record m { stats = inc_value Stat.rotation_exhausted m.stats })
rotation_retry now response (some request, m) =
    let banned = record m { proxies = record_ban now m.proxy m.proxies } in
    escalated_retry now request banned (escalate banned)

unfoldable pub respond : ℕ → Classification → Request → Response → Rotation → Outcome × Rotation
unfolding bounded_retry
respond now ok request response m =
    (pass response, record m { proxies = record_success m.proxy m.proxies })
respond now rate_limited request response m = (pass response, m)
respond now blocked request response m =
    if present response.set_cookie
    then cookie_retry response (bounded_retry request Stat.cookie_retries m)
    else rotation_retry now response (bounded_retry request Stat.identity_rotations m)
respond now captcha request response m =
    rotation_retry now response (bounded_retry request Stat.identity_rotations m)
respond now empty request response m =
    rotation_retry now response (bounded_retry request Stat.identity_rotations m)

unfoldable pub process_response : ℕ → Request → Response → Rotation → Outcome × Rotation
unfolding respond
process_response now request response m =
    if is_infra_request request
    then (pass response, m)
    else respond now (classify response.status response.body) request response m
