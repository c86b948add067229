-- ===== src/Resilience/Proxy.antt =====
-- src/acquire_intel/resilience/proxy.py: the proxy pool with quarantine. The injected clock is the
-- argument `now`, read once for a call; `none` at the outside is the KeyError or IndexError of a lookup.
pub mod Laws
pub mod Bans
pub mod Quarantine
pub mod Made
mod Tests
use acquire_intel.Prelude.{
  ℕ, zero, suc, ◌+◌, ◌%◌, Bool, true, false, ◌||◌, Option, none, some, List, [], ◌∷◌, ◌++◌, map,
  leb, if◌then◌else◌, ◌==◌, Text, eqb, strip, is_empty, any_of, length, get_elem?, Dict, get, put,
}
use acquire_intel.Prelude.Ratio.{Ratio, ratio}

pub record ProxyHealth : Type 0 where
  pub url : Text
  pub successes : ℕ
  pub failures : ℕ
  pub banned_until : Option ℕ

pub record ProxyPool : Type 0 where
  pub ordered : List Text
  pub cooldown_seconds : ℕ
  pub health : Dict ProxyHealth
  pub cursor : ℕ

abbrev pub unseen : Text → ProxyHealth
unseen url = record { url = url; successes = 0; failures = 0; banned_until = none }

-- 1.0 before any observation, which keeps the denominator positive.
abbrev pub success_rate : ProxyHealth → Ratio
success_rate h =
    let total = h.successes + h.failures in
    if total == 0 then ratio 1 1 else ratio h.successes total

-- The loop of `__post_init__`: blanks and repetitions are dropped, the order is kept.
add_url : List Text → Text → List Text
unfolding any_of
add_url seen cleaned =
    if is_empty cleaned || any_of (eqb cleaned) seen then seen else seen ++ cleaned ∷ []

clean_urls : List Text → List Text → List Text
unfolding add_url strip
clean_urls seen [] = seen
clean_urls seen (url ∷ urls) = clean_urls (add_url seen (strip url)) urls

unfoldable pub new_pool : List Text → ℕ → ProxyPool
unfolding clean_urls
new_pool urls cooldown_seconds =
    let ordered = clean_urls [] urls in
    record {
      ordered = ordered;
      cooldown_seconds = cooldown_seconds;
      health = map (λ url. (url, unseen url)) ordered;
      cursor = 0;
    }

-- A quarantine that has elapsed is lifted here.
healthy_at : ℕ → Text → ProxyPool → Option ProxyHealth → Option (Bool × ProxyPool)
healthy_at now url p none = none
healthy_at now url p (some h) = elim h.banned_until [
  | none ↦ some (true, p)
  | some t ↦
      if leb t now
      then some (true, record p { health = put p.health url (record h { banned_until = none }) })
      else some (false, p)
]

is_healthy : ℕ → ProxyPool → Text → Option (Bool × ProxyPool)
unfolding healthy_at
is_healthy now p url = healthy_at now url p (get p.health url)

abbrev advance : ℕ → Text → ProxyPool → Option Text × ProxyPool
advance offset url p = (some url, record p { cursor = (p.cursor + offset + 1) % length p.ordered })

abbrev taken :
    ℕ
    → Text
    → Option (Bool × ProxyPool)
    → (ProxyPool → Option (Option Text × ProxyPool))
    → Option (Option Text × ProxyPool)
taken offset url none rest = none
taken offset url (some (true, p)) rest = some (advance offset url p)
taken offset url (some (false, p)) rest = rest p

abbrev tried :
    ℕ
    → ℕ
    → ProxyPool
    → Option Text
    → (ProxyPool → Option (Option Text × ProxyPool))
    → Option (Option Text × ProxyPool)
tried now offset p none rest = none
tried now offset p (some url) rest = taken offset url (is_healthy now p url) rest

-- The `for` loop of `acquire`, with the rounds left and the offset.
scan : ℕ → ℕ → ℕ → ProxyPool → Option (Option Text × ProxyPool)
scan now zero offset p = some (none, p)
scan now (suc left) offset p =
    tried now offset p (get_elem? p.ordered ((p.cursor + offset) % length p.ordered))
      (scan now left (offset + 1))

unfoldable pub acquire : ℕ → ProxyPool → Option (Option Text × ProxyPool)
unfolding scan is_healthy
acquire now p = if is_empty p.ordered then some (none, p) else scan now (length p.ordered) 0 p

-- `self._health.get(url) if url is not None else None`
abbrev health_of : ProxyPool → Option Text → Option (Text × ProxyHealth)
health_of p none = none
health_of p (some url) = elim (get p.health url) [ none ↦ none | some h ↦ some (url, h) ]

abbrev update_health :
    (ProxyHealth → ProxyHealth) → ProxyPool → Option (Text × ProxyHealth) → ProxyPool
update_health f p none = p
update_health f p (some (url, h)) = record p { health = put p.health url (f h) }

unfoldable pub record_success : Option Text → ProxyPool → ProxyPool
record_success url p =
    update_health (λ h. record h { successes = h.successes + 1 }) p (health_of p url)

unfoldable pub record_ban : ℕ → Option Text → ProxyPool → ProxyPool
record_ban now url p =
    update_health
      (λ h. record h { failures = h.failures + 1; banned_until = some (now + p.cooldown_seconds) })
      p (health_of p url)

-- `health`: the values of the table, one for each proxy.
abbrev pub health_snapshot : ProxyPool → List ProxyHealth
health_snapshot p = map (λ (entry : Text × ProxyHealth). entry.1) p.health
