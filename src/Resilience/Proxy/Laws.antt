-- ===== src/Resilience/Proxy/Laws.antt =====
-- `acquire` finds a healthy proxy if there is one, and never hands out a quarantined one.
use native.Mathlib.Nat.{mod-lt, mod-eq_of_lt, add-mod_right}
use acquire_intel.Prelude.{
  ℕ, zero, suc, ◌+◌, ◌-◌, ◌%◌, ◌≤◌, ◌<◌, ◌≡◌, refl, ◌∙◌, ap, ◌≢◌, ◌⊎◌, inl, inr, Bool, true, false,
  Option, none, some, List, [], ◌∷◌, ltb, leb, Text, length, get_elem?, Dict, get, put, get-put,
  All, All-imp, All-get_elem?, All-of_get_elem?, get_elem?-total, ℕ_discrete, dec_lt, Option-cases,
  Bool-cases, arith, is_empty,
}
use acquire_intel.Resilience.Proxy.{
  ProxyHealth, ProxyPool, is_healthy, scan, acquire, tried, taken, advance,
}

abbrev quarantined_at : ℕ → Option ProxyHealth → Bool
quarantined_at now none = false
quarantined_at now (some h) = elim h.banned_until [ none ↦ false | some t ↦ ltb now t ]

-- The proxy is banned, and its deadline has not come.
abbrev pub is_quarantined : ℕ → ProxyPool → Text → Bool
is_quarantined now p url = quarantined_at now (get p.health url)

-- Every proxy has its health record, and the cursor points into the pool.
pub record IsValid (p : ProxyPool) : Type 0 where
  pub tracked : All (λ url. get p.health url ≢ none) p.ordered
  pub placed : (p.ordered ≡ []) ⊎ (p.cursor < length p.ordered)

pub put-tracked :
    (d : Dict ProxyHealth) (url : Text) (h : ProxyHealth) (urls : List Text)
    → All (λ u. get d u ≢ none) urls
    → All (λ u. get (put d url h) u ≢ none) urls
put-tracked d url h urls =
    All-imp (λ u. get d u ≢ none) (λ u. get (put d url h) u ≢ none) urls
      (λ u was. ground (arith, get-put d url u h))

abbrev pub lifted : Text → ProxyHealth → ProxyPool → ProxyPool
lifted url h p = elim h.banned_until [
  | none ↦ p
  | some t ↦ record p { health = put p.health url (record h { banned_until = none }) }
]

lifted_same :
    (url : Text) (h : ProxyHealth) (p : ProxyPool)
    → ((lifted url h p).ordered ≡ p.ordered) × ((lifted url h p).cursor ≡ p.cursor)
lifted_same url h p = ground arith

lifted-tracked :
    (url : Text) (h : ProxyHealth) (p : ProxyPool) (urls : List Text)
    → All (λ u. get p.health u ≢ none) urls
    → All (λ u. get (lifted url h p).health u ≢ none) urls
lifted-tracked url h p urls all = elim (Option-cases h.banned_until) [
  | inl e ↦ rw e all
  | inr (t, e) ↦ rw e (put-tracked p.health url (record h { banned_until = none }) urls all)
]

-- One test of the loop.
healthy_cases :
    (now : ℕ) (p : ProxyPool) (url : Text)
    → get p.health url ≢ none
    → (is_quarantined now p url ≡ true) × (is_healthy now p url ≡ some (false, p))
      ⊎ ((h : ProxyHealth) × (is_quarantined now p url ≡ false)
          × (is_healthy now p url ≡ some (true, lifted url h p)))
unfolding is_healthy
healthy_cases now p url t = elim (Option-cases (get p.health url)) [
  | inl e ↦ absurd (t e)
  | inr (h, e) ↦ elim (Option-cases h.banned_until) [
    | inl u ↦ inr (h, ground arith, ground arith)
    | inr (d, u) ↦ elim (Bool-cases (leb d now)) [
      | inl b ↦ inr (h, ground arith, ground arith)
      | inr b ↦ inl (ground arith, ground arith)
    ]
  ]
]

-- The two ends of the loop: every proxy from `offset` on is quarantined, or one is found.
abbrev pub AllQuarantined : ℕ → ProxyPool → ℕ → ℕ → Type 0
AllQuarantined now p offset left =
    (j : ℕ) (url : Text)
    → offset ≤ j
    → j < offset + left
    → get_elem? p.ordered ((p.cursor + j) % length p.ordered) ≡ some url
    → is_quarantined now p url ≡ true

pub record Found (now : ℕ) (p : ProxyPool) (r : Option (Option Text × ProxyPool)) : Type 0 where
  pub url : Text
  pub health : ProxyHealth
  pub at : ℕ
  pub skipped : ℕ
  pub listed : get_elem? p.ordered at ≡ some url
  pub ready : is_quarantined now p url ≡ false
  pub result : r ≡ some (advance skipped url (lifted url health p))

module _ (now : ℕ) (p : ProxyPool) (some_proxy : 0 < length p.ordered)
    (tracked : All (λ url. get p.health url ≢ none) p.ordered) where
  abbrev slot : ℕ → ℕ
  slot offset = (p.cursor + offset) % length p.ordered

  slot-total : (offset : ℕ) → (url : Text) × (get_elem? p.ordered (slot offset) ≡ some url)
  slot-total offset =
      get_elem?-total p.ordered (slot offset) (mod-lt (p.cursor + offset) some_proxy)

  scan_cases :
      (left offset : ℕ)
      → (scan now left offset p ≡ some (none, p)) × AllQuarantined now p offset left
        ⊎ Found now p (scan now left offset p)
  unfolding scan
  scan_cases zero offset = inl (refl, λ j url a b e. absurd (omega arith))
  scan_cases (suc left) offset =
      let (url, here) = slot-total offset in
      elim (healthy_cases now p url
        (All-get_elem? (λ u. get p.health u ≢ none) p.ordered (slot offset) tracked here)) [
          | inr (h, ready, e) ↦ inr (record {
            url = url;
            health = h;
            at = slot offset;
            skipped = offset;
            listed = here;
            ready = ready;
            result = rw (here, tried, e, taken);
          })
          | inl (q, e) ↦ elim (scan_cases left (offset + 1)) [
            | inl (r, rest) ↦ inl (
              rw (here, tried, e, taken) r,
              λ j v a b f. elim (ℕ_discrete offset j) [
                | yes same ↦ ground (arith)
                | no other ↦ rest j v (omega arith) (omega arith) f
              ],
            )
            | inr found ↦ inr (record {
              url = found.url;
              health = found.health;
              at = found.at;
              skipped = found.skipped;
              listed = found.listed;
              ready = found.ready;
              result = rw (here, tried, e, taken) found.result;
            })
          ]
        ]

-- Going round from the cursor meets every place.
reach : (cursor n i : ℕ) → cursor < n → i < n → (j : ℕ) × (j < n) × ((cursor + j) % n ≡ i)
reach cursor n i c h = elim (dec_lt i cursor) [
  | yes l ↦ (
    i + n - cursor,
    omega arith,
    ap (λ (t : ℕ). t % n) (let e : cursor + (i + n - cursor) ≡ i + n = omega arith in e)
        ∙ add-mod_right i n
        ∙ mod-eq_of_lt h,
  )
  | no g ↦ (
    i - cursor,
    omega arith,
    ap (λ (t : ℕ). t % n) (let e : cursor + (i - cursor) ≡ i = omega arith in e) ∙ mod-eq_of_lt h,
  )
]

-- What `acquire` may answer: a listed proxy that is not quarantined, or none if all of them are.
abbrev pub Choice : ℕ → ProxyPool → Option Text → Type 0
Choice now p none = All (λ url. is_quarantined now p url ≡ true) p.ordered
Choice now p (some url) =
    (i : ℕ) × (get_elem? p.ordered i ≡ some url) × (is_quarantined now p url ≡ false)

all_quarantined :
    (now : ℕ) (p : ProxyPool)
    → p.cursor < length p.ordered
    → AllQuarantined now p 0 (length p.ordered)
    → All (λ url. is_quarantined now p url ≡ true) p.ordered
all_quarantined now p c all =
    All-of_get_elem? (λ url. is_quarantined now p url ≡ true) p.ordered
      λ i url h e.
        let (j, l, f) = reach p.cursor (length p.ordered) i c h in
        all j url (omega arith) (omega arith) (rw f e)

Found-IsValid :
    (p : ProxyPool) (skipped : ℕ) (url : Text) (h : ProxyHealth)
    → All (λ u. get p.health u ≢ none) p.ordered
    → 0 < length p.ordered
    → IsValid (advance skipped url (lifted url h p)).1
Found-IsValid p skipped url h tracked some_proxy =
    let (o, c) = lifted_same url h p in
    record {
      tracked = rw o (lifted-tracked url h p p.ordered tracked);
      placed = rw o (inr (mod-lt ((lifted url h p).cursor + skipped + 1) some_proxy));
    }

All-of_empty : (P : Text → Type 0) (xs : List Text) → is_empty xs ≡ true → All P xs
All-of_empty P [] e = tt
All-of_empty P (x ∷ xs) e = cc

cursor-lt : (p : ProxyPool) → IsValid p → is_empty p.ordered ≡ false → p.cursor < length p.ordered
cursor-lt p v e = elim v.placed [ inl o ↦ cc (ap is_empty o) | inr c ↦ c ]

-- On a valid pool `acquire` always answers, leaves a valid pool, and its answer is a listed proxy
-- that is not quarantined at that time; it answers with a direct connection only if every proxy of
-- the pool is quarantined.
pub acquire_answers :
    (now : ℕ) (p : ProxyPool)
    → IsValid p
    → (url : Option Text) × (p' : ProxyPool) × (acquire now p ≡ some (url, p'))
      × IsValid p'
      × Choice now p url
unfolding acquire
acquire_answers now p v = elim (Bool-cases (is_empty p.ordered)) [
  | inl e ↦ (none, p, rw e, v, All-of_empty (λ url. is_quarantined now p url ≡ true) p.ordered e)
  | inr e ↦
      let c = cursor-lt p v e in
      let positive : 0 < length p.ordered = omega arith in
      elim (scan_cases now p positive v.tracked (length p.ordered) 0) [
        | inl (r, all) ↦ (none, p, rw e r, v, all_quarantined now p c all)
        | inr f ↦ (
          some f.url,
          (advance f.skipped f.url (lifted f.url f.health p)).1,
          rw e f.result,
          Found-IsValid p f.skipped f.url f.health v.tracked positive,
          (f.at, f.listed, f.ready),
        )
      ]
]

-- `acquire` leaves the pool as it is, or finds a proxy.
pub acquire_shape :
    (now : ℕ) (p : ProxyPool)
    → IsValid p
    → (acquire now p ≡ some (none, p)) ⊎ Found now p (acquire now p)
unfolding acquire
acquire_shape now p v = elim (Bool-cases (is_empty p.ordered)) [
  | inl e ↦ inl (rw e refl)
  | inr e ↦
      let c = cursor-lt p v e in
      elim (scan_cases now p (omega arith) v.tracked (length p.ordered) 0) [
        | inl (r, all) ↦ inl (rw e r)
        | inr f ↦ inr (record {
          url = f.url;
          health = f.health;
          at = f.at;
          skipped = f.skipped;
          listed = f.listed;
          ready = f.ready;
          result = rw e f.result;
        })
      ]
]
