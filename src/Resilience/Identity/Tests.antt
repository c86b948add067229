-- ===== src/Resilience/Identity/Tests.antt =====
-- Rotations over the default catalogue, and the theorems there.
use acquire_intel.Prelude.{◌≡◌, refl, ◌≢◌, some, arith}
use acquire_intel.Resilience.Identity.{IdentityPool, identity, new_pool, rotate}
use acquire_intel.Resilience.Identity.Catalogue.{chrome_win, default_profiles}
use acquire_intel.Resilience.Identity.Laws.{
  IsValid, After, rotated, rotated-After, rotated-key_fresh,
}

abbrev start : IdentityPool
start = record {
  profiles = default_profiles;
  index = 0;
  generation = 0;
  current = identity chrome_win 0;
}

new_pool-default : new_pool default_profiles ≡ some start
unfolding new_pool
new_pool-default = refl

start-IsValid : IsValid start
start-IsValid = record { profile = chrome_win; listed = refl; placed = omega arith; built = refl }

abbrev wrapped : IdentityPool
wrapped = record start { generation = 5; current = identity chrome_win 5 }

wraps : rotated 5 start ≡ some wrapped
unfolding rotated rotate
wraps = refl

rotated-After_example : (q : IdentityPool) × (rotated 7 start ≡ some q) × After 7 start q
rotated-After_example = rotated-After 7 start start-IsValid

rotated-key_fresh_example : (identity chrome_win 0).key ≢ (identity chrome_win 5).key
unfolding rotated
rotated-key_fresh_example =
    rotated-key_fresh 0 5 start start wrapped start-IsValid refl wraps (omega arith)
