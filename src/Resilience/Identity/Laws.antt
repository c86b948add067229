-- ===== src/Resilience/Identity/Laws.antt =====
-- Rotation goes round the catalogue, and never gives the same cookie-jar key twice.
use native.Mathlib.Nat.{mod-lt, mod-add-mod, mod-eq_of_lt}
use acquire_intel.Prelude.{
  ℕ, zero, suc, ◌+◌, ◌%◌, ◌<◌, ◌≡◌, refl, sym, ap, ◌∙◌, ◌≢◌, Option, none, some, List, [], ◌∷◌,
  ◌++◌, length, get_elem?, get_elem?-total, Text, show, show-injective, show-IsDigit, IsDigit, All,
  arith, ◌==◌, if◌then◌else◌, any_of, true, false,
}
use acquire_intel.Resilience.Identity.{
  BrowserProfile, Identity, IdentityPool, identity, new_pool, rotate,
}

-- The current identity is the profile at the index, whole, under the key of the generation.
pub record IsValid (p : IdentityPool) : Type 0 where
  pub profile : BrowserProfile
  pub listed : get_elem? p.profiles p.index ≡ some profile
  pub placed : p.index < length p.profiles
  pub built : p.current ≡ identity profile p.generation

abbrev then_rotate :
    Option IdentityPool → (IdentityPool → Option IdentityPool) → Option IdentityPool
then_rotate none f = none
then_rotate (some p) f = f p

-- `n` rotations.
unfoldable pub rotated : ℕ → IdentityPool → Option IdentityPool
rotated zero p = some p
rotated (suc n) p = then_rotate (rotate p) (rotated n)

-- `q` stands `n` rotations after `p`.
pub record After (n : ℕ) (p q : IdentityPool) : Type 0 where
  pub valid : IsValid q
  pub profiles : q.profiles ≡ p.profiles
  pub generation : q.generation ≡ p.generation + n
  pub index : q.index ≡ (p.index + n) % length p.profiles

pub rotate-After :
    (p : IdentityPool) → IsValid p → (q : IdentityPool) × (rotate p ≡ some q) × After 1 p q
unfolding rotate
rotate-After p v =
    let positive : 0 < length p.profiles = omega (arith, v.placed) in
    let inside = mod-lt (p.index + 1) positive in
    let (profile, e) = get_elem?-total p.profiles ((p.index + 1) % length p.profiles) inside in
    (
      record {
        profiles = p.profiles;
        index = (p.index + 1) % length p.profiles;
        generation = p.generation + 1;
        current = identity profile (p.generation + 1);
      },
      ground arith,
      record {
        valid = record { profile = profile; listed = e; placed = inside; built = refl };
        profiles = refl;
        generation = refl;
        index = refl;
      },
    )

-- From a valid pool any number of rotations succeeds: the profile moves round the catalogue by as
-- many places, the identity is a whole profile of it, and the generation counts the rotations.
pub rotated-After :
    (n : ℕ) (p : IdentityPool)
    → IsValid p
    → (q : IdentityPool) × (rotated n p ≡ some q) × After n p q
unfolding rotated
rotated-After zero p v = (
  p,
  refl,
  record {
    valid = v;
    profiles = refl;
    generation = omega arith;
    index = sym (mod-eq_of_lt {n = p.index + 0} (omega (arith, v.placed)) ∙ omega arith);
  },
)
rotated-After (suc n) p v =
    let (q, e, a) = rotate-After p v in
    let (r, f, b) = rotated-After n q a.valid in
    (
      r,
      rw e f,
      record {
        valid = b.valid;
        profiles = b.profiles ∙ a.profiles;
        generation = omega (arith, a.generation, b.generation);
        index =
            b.index
            ∙ rw (a.profiles, a.index)
                (mod-add-mod (p.index + 1) (length p.profiles) n
                  ∙ ap (λ (t : ℕ). t % length p.profiles)
                      (let e : p.index + 1 + n ≡ p.index + suc n = omega arith in e));
      },
    )

-- What stands behind the last `#` of a key.
after_hash : Text → Text
after_hash [] = []
after_hash (c ∷ s) = let rest = after_hash s in if any_of (◌==◌ b'#') s then rest else s

any_of-IsDigit : (s : Text) → All IsDigit s → any_of (◌==◌ b'#') s ≡ false
unfolding any_of
any_of-IsDigit [] h = refl
any_of-IsDigit (c ∷ s) h = ground (arith, any_of-IsDigit s h.1)

any_of-append_hash : (name digits : Text) → any_of (◌==◌ b'#') (name ++ b'#' ∷ digits) ≡ true
unfolding any_of
any_of-append_hash [] digits = refl
any_of-append_hash (c ∷ name) digits = ground (arith, any_of-append_hash name digits)

after_hash-append :
    (name digits : Text) → All IsDigit digits → after_hash (name ++ b'#' ∷ digits) ≡ digits
unfolding after_hash
after_hash-append [] digits h = rw (any_of-IsDigit digits h)
after_hash-append (c ∷ name) digits h =
    rw (any_of-append_hash name digits) (after_hash-append name digits h)

-- A key tells its generation.
key_tells : (p q : BrowserProfile) (m n : ℕ) → (identity p m).key ≡ (identity q n).key → m ≡ n
key_tells p q m n e = show-injective m n (
    sym (after_hash-append p.name (show m) (show-IsDigit m))
    ∙ ap after_hash e
    ∙ after_hash-append q.name (show n) (show-IsDigit n))

-- Identities after different numbers of rotations have different cookie-jar keys, also when the
-- rotation has come back to the same profile.
pub rotated-key_fresh :
    (m n : ℕ) (p q r : IdentityPool)
    → IsValid p
    → rotated m p ≡ some q
    → rotated n p ≡ some r
    → m ≢ n
    → q.current.key ≢ r.current.key
rotated-key_fresh m n p q r v eq er h same =
    let (q', eq', a) = rotated-After m p v in
    let (r', er', b) = rotated-After n p v in
    let qq : q' ≡ q = cc in
    let rr : r' ≡ r = cc in
    let keys : (identity a.valid.profile q'.generation).key
        ≡ (identity b.valid.profile r'.generation).key =
      sym (ap (λ (i : Identity). i.key) a.valid.built)
      ∙ ap (λ (t : IdentityPool). t.current.key) qq
      ∙ same
      ∙ sym (ap (λ (t : IdentityPool). t.current.key) rr)
      ∙ ap (λ (i : Identity). i.key) b.valid.built in
    let generations = key_tells a.valid.profile b.valid.profile q'.generation r'.generation keys in
    h (omega (arith, a.generation, b.generation))

-- A pool over a catalogue that is not empty starts valid, on its first profile.
pub new_pool-IsValid :
    (profile : BrowserProfile) (rest : List BrowserProfile)
    → (p : IdentityPool) × (new_pool (profile ∷ rest) ≡ some p)
      × IsValid p
      × (p.current ≡ identity profile 0)
unfolding new_pool
new_pool-IsValid profile rest =
    (_, refl, record { profile = profile; listed = refl; placed = omega arith; built = refl }, refl)
