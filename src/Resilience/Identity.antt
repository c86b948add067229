-- ===== src/Resilience/Identity.antt =====
-- src/acquire_intel/resilience/identity.py: browser profiles and the pool that rotates over them.
-- `none` is the ValueError of an empty catalogue or the IndexError of a bad index.
pub mod Catalogue
pub mod Laws
mod Tests
use acquire_intel.Prelude.{
  ℕ, ◌+◌, ◌%◌, Option, none, some, List, [], ◌∷◌, ◌++◌, length, get_elem?, Text, Dict, show,
}

pub record BrowserProfile : Type 0 where
  pub name : Text
  pub user_agent : Text
  pub headers : Dict Text
  pub viewport : ℕ × ℕ
  pub locale : Text

pub record Identity : Type 0 where
  pub key : Text
  pub profile : BrowserProfile

pub record IdentityPool : Type 0 where
  pub profiles : List BrowserProfile
  pub index : ℕ
  pub generation : ℕ
  pub current : Identity

-- f"{profile.name}#{self._generation}"
abbrev pub identity : BrowserProfile → ℕ → Identity
identity profile generation = record {
  key = profile.name ++ (b'#' ∷ show generation);
  profile = profile;
}

build : List BrowserProfile → ℕ → ℕ → Option Identity
build profiles index generation = elim (get_elem? profiles index) [
  | none ↦ none
  | some profile ↦ some (identity profile generation)
]

pool_of : List BrowserProfile → ℕ → ℕ → Option Identity → Option IdentityPool
pool_of profiles index generation none = none
pool_of profiles index generation (some current) =
    some (record { profiles = profiles; index = index; generation = generation; current = current })

unfoldable pub new_pool : List BrowserProfile → Option IdentityPool
unfolding pool_of build
new_pool [] = none
new_pool (p ∷ ps) = pool_of (p ∷ ps) 0 0 (build (p ∷ ps) 0 0)

unfoldable pub rotate : IdentityPool → Option IdentityPool
unfolding pool_of build
rotate p =
    let index = (p.index + 1) % length p.profiles in
    let generation = p.generation + 1 in
    pool_of p.profiles index generation (build p.profiles index generation)
