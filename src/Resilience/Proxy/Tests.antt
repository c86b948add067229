-- ===== src/Resilience/Proxy/Tests.antt =====
-- Runs of the pool, and the theorems at concrete pools.
use acquire_intel.Prelude.{
  ℕ, ◌<◌, List, ◌&&◌, not, any_of, eqb, map, strip, ◌≡◌, refl, ◌≢◌, Option, none, some, [], ◌∷◌,
  arith, Text, codes, is_empty, get, builtins, inr,
}
use acquire_intel.Resilience.Proxy.{ProxyPool, unseen, new_pool, acquire, record_ban}
use acquire_intel.Resilience.Proxy.Laws.{IsValid, Choice, acquire_answers}
use acquire_intel.Resilience.Proxy.Quarantine.{Step, acquires, succeeds, bans, steps, ban_excludes}
use acquire_intel.Resilience.Proxy.Made.{Distinct, new_pool-IsValid}

abbrev pair : ProxyPool
pair = record {
  ordered = codes "p1" ∷ codes "p2" ∷ [];
  cooldown_seconds = 60;
  health = (codes "p1", unseen (codes "p1")) ∷ (codes "p2", unseen (codes "p2")) ∷ [];
  cursor = 0;
}

from_config : new_pool (codes " p1 " ∷ codes "p2" ∷ codes "  " ∷ codes "p1" ∷ []) 60 ≡ pair
unfolding new_pool builtins
from_config = refl

takes_turns : acquire 5 (record pair { cursor = 1 }) ≡ some (some (codes "p2"), pair)
unfolding acquire builtins
takes_turns = refl

pair-IsValid : IsValid pair
unfolding builtins
pair-IsValid = record { tracked = ((λ e. cc), ((λ e. cc), tt)); placed = inr (omega arith) }

acquire_answers_example :
    (url : Option Text) × (p' : ProxyPool) × (acquire 5 pair ≡ some (url, p'))
    × IsValid p'
    × Choice 5 pair url
acquire_answers_example = acquire_answers 5 pair pair-IsValid

abbrev after_ban : ProxyPool
after_ban = record pair {
  health =
      (codes "p1", record (unseen (codes "p1")) { failures = 1; banned_until = some 65 })
      ∷ (codes "p2", unseen (codes "p2"))
      ∷ [];
}

p1_known : get pair.health (codes "p1") ≢ none
unfolding builtins
p1_known e = cc

skips_p1 : acquire 64 (record_ban 5 (some (codes "p1")) pair) ≡ some (some (codes "p2"), after_ban)
unfolding acquire record_ban builtins
skips_p1 = refl

-- A success of the banned proxy, whose answer was still on its way, and a second ban.
abbrev calls : List Step
calls = acquires 10 ∷ succeeds (some (codes "p1")) ∷ bans 20 (some (codes "p2")) ∷ acquires 64 ∷ []

ban_excludes_example :
    (p' : ProxyPool) × (steps calls (record_ban 5 (some (codes "p1")) pair) ≡ some p')
    × ((later : ℕ)
        → later < 65
        → (found : Option Text) × (p'' : ProxyPool) × (acquire later p' ≡ some (found, p''))
          × (found ≢ some (codes "p1")))
ban_excludes_example =
    ban_excludes 5 (codes "p1") pair calls pair-IsValid p1_known
      (omega arith, (tt, (omega arith, (omega arith, tt))))

new_pool-IsValid_example :
    IsValid (new_pool (codes " p1 " ∷ codes "  " ∷ []) 60)
    × ((u : Text)
        → any_of (eqb u) (new_pool (codes " p1 " ∷ codes "  " ∷ []) 60).ordered
          ≡ (not (is_empty u) && any_of (eqb u) (map strip (codes " p1 " ∷ codes "  " ∷ []))))
    × Distinct (new_pool (codes " p1 " ∷ codes "  " ∷ []) 60).ordered
new_pool-IsValid_example = new_pool-IsValid (codes " p1 " ∷ codes "  " ∷ []) 60
