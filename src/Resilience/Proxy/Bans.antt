-- ===== src/Resilience/Proxy/Bans.antt =====
-- What successes and bans do to a valid pool.
use acquire_intel.Prelude.{
  ℕ, ◌+◌, ◌≡◌, inl, inr, Option, none, some, Text, get, put, Option-cases, arith,
}
use acquire_intel.Resilience.Proxy.{ProxyHealth, ProxyPool, record_success, record_ban, health_of}
use acquire_intel.Resilience.Proxy.Laws.{IsValid, put-tracked}

pub update-IsValid :
    (p : ProxyPool) (url : Text) (h : ProxyHealth)
    → IsValid p
    → IsValid (record p { health = put p.health url h })
update-IsValid p url h v = record {
  tracked = put-tracked p.health url h p.ordered v.tracked;
  placed = v.placed;
}

pub record_success-IsValid :
    (url : Option Text) (p : ProxyPool) → IsValid p → IsValid (record_success url p)
unfolding record_success
record_success-IsValid none p v = v
record_success-IsValid (some url) p v = elim (Option-cases (get p.health url)) [
  | inl e ↦ rw (e, health_of) v
  | inr (h, e) ↦ rw (e, health_of) (update-IsValid p url _ v)
]

pub record_ban-IsValid :
    (now : ℕ) (url : Option Text) (p : ProxyPool) → IsValid p → IsValid (record_ban now url p)
unfolding record_ban
record_ban-IsValid now none p v = v
record_ban-IsValid now (some url) p v = elim (Option-cases (get p.health url)) [
  | inl e ↦ rw (e, health_of) v
  | inr (h, e) ↦ rw (e, health_of) (update-IsValid p url _ v)
]

abbrev pub banned : ℕ → Text → ProxyPool → ProxyHealth → ProxyHealth
banned now url p h = record h {
  failures = h.failures + 1;
  banned_until = some (now + p.cooldown_seconds);
}

pub record_ban-tracked :
    (now : ℕ) (url : Text) (p : ProxyPool) (h : ProxyHealth)
    → get p.health url ≡ some h
    → record_ban now (some url) p ≡ record p { health = put p.health url (banned now url p h) }
unfolding record_ban
record_ban-tracked now url p h e = ground arith
