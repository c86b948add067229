-- ===== src/Resilience/Circuit/Registry.antt =====
-- The registry keeps the breakers of different domains apart.
use acquire_intel.Prelude.{◌≡◌, arith, Text, eqb, get-put, if◌then◌else◌}
use acquire_intel.Resilience.Circuit.{CircuitBreaker, CircuitBreakerRegistry, for_domain, store}

-- After the breaker of one domain has changed, that domain is given the changed one, and every
-- other domain the breaker that it was given before.
for_domain-store :
    (domain other : Text) (b : CircuitBreaker) (r : CircuitBreakerRegistry)
    → (for_domain other (store domain b r)).0
      ≡ (if eqb domain other then b else (for_domain other r).0)
unfolding for_domain
for_domain-store domain other b r = ground (arith, get-put r.breakers domain other b)
