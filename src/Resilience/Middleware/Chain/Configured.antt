-- ===== src/Resilience/Middleware/Chain/Configured.antt =====
-- The four middlewares as their `from_crawler` of src/acquire_intel/resilience/middleware.py makes them
-- from the settings that src/acquire_intel/acquisition/scrapy_settings.py hands on.
use acquire_intel.Prelude.{
  ℕ, ◌+◌, ◌≡◌, ◌<◌, ◌≤◌, refl, sym, ap, ◌∙◌, false, Option, none, some, List, [], ◌∷◌, Text, arith,
  get, subst,
}
use mathlib.Core.Option.{some-injective}
use acquire_intel.Config.{Settings, proxy_urls}
use acquire_intel.Resilience.Backoff.{Random, BackoffPolicy}
use acquire_intel.Resilience.Circuit.{for_domain}
use acquire_intel.Resilience.Identity.{IdentityPool}
use acquire_intel.Resilience.Identity as Identity
use acquire_intel.Resilience.Identity.Laws as Identities
use acquire_intel.Resilience.Identity.Catalogue.{
  default_profiles, chrome_win, chrome_mac, firefox_win, firefox_linux, safari_mac,
}
use acquire_intel.Resilience.Proxy as Proxy
use acquire_intel.Resilience.Proxy.{ProxyPool}
use acquire_intel.Resilience.Proxy.Laws as Proxies
use acquire_intel.Resilience.Proxy.Made as Made
use acquire_intel.Resilience.Middleware.{Request, counter, is_infra_request}
use acquire_intel.Resilience.Middleware.CircuitBreaker.{CircuitMiddleware}
use acquire_intel.Resilience.Middleware.BanDetection.{BanEvent}
use acquire_intel.Resilience.Middleware.Rotation.{Rotation, new_rotation}
use acquire_intel.Resilience.Middleware.Chain.{World, Layer, fetch}
use acquire_intel.Resilience.Middleware.Chain.Fetch.{LayerValid, Ends, fetch-Ends}
use acquire_intel.Resilience.Middleware.Chain.RotationStage.{RotationValid}
use acquire_intel.Resilience.Middleware.Chain.ClearFetch.{IsClear}

abbrev pub policy_of : Settings → BackoffPolicy
policy_of settings = record {
  base_delay = settings.backoff_base_delay;
  max_delay = settings.backoff_max_delay;
  max_retries = settings.backoff_max_retries;
}

abbrev pub circuit_of : Settings → CircuitMiddleware
circuit_of settings = record {
  registry = record {
    failure_threshold = settings.circuit_failure_threshold;
    cooldown_seconds = settings.circuit_cooldown_seconds;
    breakers = [];
  };
  stats = some [];
}

abbrev with_identities : Settings → ℕ → Option IdentityPool → Option Rotation
with_identities settings now none = none
with_identities settings now (some identities) =
    new_rotation now identities
      (Proxy.new_pool (proxy_urls settings) settings.proxy_cooldown_seconds)
      settings.rotation_max_attempts (some [])

-- `IdentityRotationMiddleware.from_crawler`; `none` where the constructors raise.
unfoldable pub rotation_of : Settings → ℕ → Option Rotation
unfolding Identity.new_pool Proxy.new_pool new_rotation proxy_urls
rotation_of settings now = with_identities settings now (Identity.new_pool default_profiles)

made_rotation :
    (now : ℕ) (ids : IdentityPool) (pool : ProxyPool) (max_attempts : ℕ) (url : Option Text)
    (pool' : ProxyPool)
    → Proxy.acquire now pool ≡ some (url, pool')
    → new_rotation now ids pool max_attempts (some [])
      ≡ some (record {
        identities = ids;
        proxies = pool';
        max_attempts = max_attempts;
        stats = some [];
        escalated = false;
        proxy = url;
      })
unfolding new_rotation
made_rotation now ids pool max_attempts url pool' f = rw (f, new_rotation) refl

rotation_configured :
    (settings : Settings) (now : ℕ)
    → (m : Rotation) × (rotation_of settings now ≡ some m)
      × RotationValid m
      × (m.max_attempts ≡ settings.rotation_max_attempts)
      × (m.escalated ≡ false)
unfolding rotation_of new_rotation
rotation_configured settings now =
    let (ids, e, v, _) =
      Identities.new_pool-IsValid chrome_win
        (chrome_mac ∷ firefox_win ∷ firefox_linux ∷ safari_mac ∷ []) in
    let pool = Proxy.new_pool (proxy_urls settings) settings.proxy_cooldown_seconds in
    let (url, pool', f, w, _) =
      Proxies.acquire_answers now pool
        (Made.new_pool-IsValid (proxy_urls settings) settings.proxy_cooldown_seconds).0 in
    (
      record {
        identities = ids;
        proxies = pool';
        max_attempts = settings.rotation_max_attempts;
        stats = some [];
        escalated = false;
        proxy = url;
      },
      ap (with_identities settings now) e
          ∙ made_rotation now ids pool settings.rotation_max_attempts url pool' f,
      record { identities = v; proxies = w },
      refl,
      refl,
    )

module _ (random : Random) (float_of : Text → Option ℕ) where
  open random use {Rng}

  abbrev with_rotation :
      Settings → Rng → Option (List BanEvent) → Option Rotation → Option (Layer random float_of)
  with_rotation settings rng sink none = none
  with_rotation settings rng sink (some rotation) = some (record {
    backoff = record { policy = policy_of settings; stats = some []; rng = rng };
    circuit = circuit_of settings;
    rotation = rotation;
    gate = record { stats = some []; sink = sink };
  })

  -- The chain of a crawl that starts at `now`, with the list of ban events of its spider.
  unfoldable pub layer_of :
      Settings → ℕ → Rng → Option (List BanEvent) → Option (Layer random float_of)
  unfolding rotation_of
  layer_of settings now rng sink = with_rotation settings rng sink (rotation_of settings now)

  -- A chain that is fresh from its settings.
  pub record IsConfigured (settings : Settings) (l : Layer random float_of) : Type 0 where
    pub valid : settings.backoff_max_retries ≤ 1024 → LayerValid random float_of l
    pub clear : (host : Text) → IsClear random float_of host l
    pub policy : l.backoff.policy ≡ policy_of settings
    pub attempts : l.rotation.max_attempts ≡ settings.rotation_max_attempts

  -- Whatever the settings, the chain can be made from them: it starts valid, no host is blocked,
  -- and its budgets are those of the settings.
  pub layer_of-IsConfigured :
      (settings : Settings) (now : ℕ) (rng : Rng) (sink : Option (List BanEvent))
      → (l : Layer random float_of) × (layer_of settings now rng sink ≡ some l)
        × IsConfigured settings l
  unfolding layer_of for_domain get
  layer_of-IsConfigured settings now rng sink =
      let (m, e, v, attempts, plain) = rotation_configured settings now in
      (
        record {
          backoff = record { policy = policy_of settings; stats = some []; rng = rng };
          circuit = circuit_of settings;
          rotation = m;
          gate = record { stats = some []; sink = sink };
        },
        ap (with_rotation settings rng sink) e,
        record {
          valid = λ few. record {
            registry = record { at = λ host b e. cc };
            rotation = v;
            retries = few;
          };
          clear = λ host. record { closed_at = refl; plain = plain };
          policy = refl;
          attempts = attempts;
        },
      )

  -- The chain that the settings make is such a one.
  pub made-IsConfigured :
      (settings : Settings) (now : ℕ) (rng : Rng) (sink : Option (List BanEvent))
      (l : Layer random float_of)
      → layer_of settings now rng sink ≡ some l
      → IsConfigured settings l
  made-IsConfigured settings now rng sink l e =
      let (l0, f, c) = layer_of-IsConfigured settings now rng sink in
      subst (IsConfigured settings) (some-injective l0 l (sym f ∙ e)) c

  -- A crawl with a chain made from settings of at most 1024 backoff retries fetches every request of its own to an end,
  -- whatever the server does: with more fuel than the retries of the settings and its rotation
  -- attempts together, it hands an `ok` response to the spider or drops the request.
  configured_fetch-Ends :
      (settings : Settings) (now : ℕ) (rng : Rng) (sink : Option (List BanEvent))
      (l : Layer random float_of) (world : World) (fuel : ℕ) (s : World.State world) (p : Request)
      → layer_of settings now rng sink ≡ some l
      → is_infra_request p ≡ false
      → p.backoff_retries ≡ none
      → p.rotation_attempts ≡ none
      → settings.backoff_max_retries ≤ 1024
      → settings.backoff_max_retries + settings.rotation_max_attempts < fuel
      → Ends (fetch random float_of world fuel l s p).0
  configured_fetch-Ends settings now rng sink l world fuel s p e infra first once few h =
      let c = made-IsConfigured settings now rng sink l e in
      fetch-Ends random float_of world fuel l s p (c.valid few) infra (
        omega (
          arith,
          h,
          c.attempts,
          ap (λ (t : BackoffPolicy). t.max_retries) c.policy,
          ap counter first,
          ap counter once,
        ))
