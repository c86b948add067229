-- ===== src/Resilience/Proxy/Made.antt =====
-- The pool that the configuration makes.
use acquire_intel.Prelude.{
  ℕ, ◌<◌, ◌≡◌, refl, ap, ◌≢◌, ◌⊎◌, inl, inr, Bool, true, false, ◌&&◌, ◌||◌, not, List, [], ◌∷◌,
  ◌++◌, map, none, Text, eqb, eqb_iff, length, get, All, All-imp, Bool-cases, arith, is_empty,
  strip, any_of,
}
use acquire_intel.Resilience.Proxy.{unseen, add_url, clean_urls, new_pool}
use acquire_intel.Resilience.Proxy.Laws.{IsValid}

add_url-tracked :
    (urls : List Text) → All (λ u. get (map (λ url. (url, unseen url)) urls) u ≢ none) urls
unfolding get
add_url-tracked [] = tt
add_url-tracked (x ∷ xs) = (
  ground (arith, eqb_iff x x),
  All-imp (λ u. get (map (λ url. (url, unseen url)) xs) u ≢ none)
      (λ u. get (map (λ url. (url, unseen url)) (x ∷ xs)) u ≢ none) xs
      (λ u was. ground (arith, eqb_iff x u)) (add_url-tracked xs),
)

pool_start : (urls : List Text) → (urls ≡ []) ⊎ (0 < length urls)
pool_start [] = inl refl
pool_start (u ∷ us) = inr (omega arith)

any_of-append :
    (test : Text → Bool) (xs ys : List Text)
    → any_of test (xs ++ ys) ≡ (any_of test xs || any_of test ys)
unfolding any_of
any_of-append test [] ys = refl
any_of-append test (x ∷ xs) ys = ground (arith, any_of-append test xs ys)

same_listed :
    (u c : Text) (seen : List Text)
    → eqb u c ≡ true
    → (any_of (eqb u) seen ≡ any_of (eqb c) seen) × (is_empty u ≡ is_empty c)
same_listed u c seen e =
    let same : u ≡ c = ground (arith, eqb_iff u c) in
    (ap (λ (t : Text). any_of (eqb t) seen) same, ap (λ (t : Text). is_empty t) same)

add_url-listed :
    (u : Text) (seen : List Text) (c : Text)
    → any_of (eqb u) (add_url seen c) ≡ (any_of (eqb u) seen || (not (is_empty u) && eqb u c))
unfolding add_url any_of
add_url-listed u seen c = elim (Bool-cases (eqb u c)) [
  | inl e ↦
      let (listed, blank) = same_listed u c seen e in
      ground (arith, listed, blank, any_of-append (eqb u) seen (c ∷ []))
  | inr e ↦ ground (arith, any_of-append (eqb u) seen (c ∷ []))
]

clean_urls-listed :
    (u : Text) (seen urls : List Text)
    → any_of (eqb u) (clean_urls seen urls)
      ≡ (any_of (eqb u) seen || (not (is_empty u) && any_of (eqb u) (map strip urls)))
unfolding clean_urls any_of
clean_urls-listed u seen [] = ground arith
clean_urls-listed u seen (url ∷ urls) =
    ground (
      arith,
      clean_urls-listed u (add_url seen (strip url)) urls,
      add_url-listed u seen (strip url),
    )

-- No text stands in the list twice.
abbrev pub Distinct : List Text → Type 0
Distinct [] = Unit
Distinct (x ∷ xs) = (any_of (eqb x) xs ≡ false) × Distinct xs

append-Distinct :
    (seen : List Text) (c : Text)
    → Distinct seen
    → any_of (eqb c) seen ≡ false
    → Distinct (seen ++ c ∷ [])
unfolding any_of
append-Distinct [] c d h = (refl, tt)
append-Distinct (x ∷ seen) c d h = (
  ground (arith, any_of-append (eqb x) seen (c ∷ []), d.0, eqb_iff x c, eqb_iff c x),
  append-Distinct seen c d.1 (ground arith),
)

add_url-Distinct : (seen : List Text) (c : Text) → Distinct seen → Distinct (add_url seen c)
unfolding add_url
add_url-Distinct seen c d = elim (Bool-cases (is_empty c)) [
  | inl e ↦ rw e d
  | inr e ↦ elim (Bool-cases (any_of (eqb c) seen)) [
    | inl f ↦ rw (e, f) d
    | inr f ↦ rw (e, f) (append-Distinct seen c d f)
  ]
]

clean_urls-Distinct : (seen urls : List Text) → Distinct seen → Distinct (clean_urls seen urls)
unfolding clean_urls
clean_urls-Distinct seen [] d = d
clean_urls-Distinct seen (url ∷ urls) d =
    clean_urls-Distinct (add_url seen (strip url)) urls (add_url-Distinct seen (strip url) d)

-- A new pool is valid, whatever the configuration holds. A text is one of its proxies just if it is not
-- empty and one of the configured texts, stripped, is the same; and no proxy stands in it twice.
pub new_pool-IsValid :
    (urls : List Text) (cooldown : ℕ)
    → IsValid (new_pool urls cooldown)
      × ((u : Text)
          → any_of (eqb u) (new_pool urls cooldown).ordered
            ≡ (not (is_empty u) && any_of (eqb u) (map strip urls)))
      × Distinct (new_pool urls cooldown).ordered
unfolding new_pool any_of
new_pool-IsValid urls cooldown = (
  record {
    tracked = add_url-tracked (clean_urls [] urls);
    placed = pool_start (clean_urls [] urls);
  },
  (λ u. clean_urls-listed u [] urls),
  clean_urls-Distinct [] urls tt,
)
