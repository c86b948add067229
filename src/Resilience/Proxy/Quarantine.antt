-- ===== src/Resilience/Proxy/Quarantine.antt =====
-- What a ban does to `acquire`, whatever happens to the pool in the meantime.
use acquire_intel.Prelude.{
  ℕ, ◌+◌, ◌<◌, ◌≤◌, ◌≡◌, refl, sym, ap, subst, ◌∙◌, ◌≢◌, inl, inr, true, false, Option, none, some,
  List, [], ◌∷◌, Text, eqb, eqb_iff, ltb, Dict, get, put, get-put_self, get-put_ne, All,
  Option-cases, Bool-cases, arith,
}
use acquire_intel.Resilience.Proxy.{
  ProxyHealth, ProxyPool, acquire, advance, record_success, record_ban, health_of,
}
use acquire_intel.Resilience.Proxy.Laws.{
  is_quarantined, IsValid, acquire_answers, lifted, acquire_shape,
}
use acquire_intel.Resilience.Proxy.Bans.{update-IsValid, banned, record_ban-tracked}

-- One call of a pool.
pub data Step : Type 0 where
  acquires : (now : ℕ) → Step
  succeeds : (url : Option Text) → Step
  bans : (now : ℕ) (url : Option Text) → Step

abbrev pool_of : Option (Option Text × ProxyPool) → Option ProxyPool
pool_of none = none
pool_of (some (url, p)) = some p

abbrev pub step : Step → ProxyPool → Option ProxyPool
step (acquires now) p = pool_of (acquire now p)
step (succeeds url) p = some (record_success url p)
step (bans now url) p = some (record_ban now url p)

abbrev then_do : Option ProxyPool → (ProxyPool → Option ProxyPool) → Option ProxyPool
then_do none rest = none
then_do (some p) rest = rest p

-- Calls one after the other; `none` is an exception.
abbrev pub steps : List Step → ProxyPool → Option ProxyPool
steps [] p = some p
steps (s ∷ ss) p = then_do (step s p) (steps ss)

-- The call is one between a ban at `start` and its deadline.
abbrev pub Between : ℕ → ℕ → Step → Type 0
Between start deadline (acquires now) = now < deadline
Between start deadline (succeeds url) = Unit
Between start deadline (bans now url) = start ≤ now

-- The proxy is banned up to a deadline, at least.
abbrev Until : ℕ → Option ℕ → Type 0
Until deadline none = ⊥
Until deadline (some t) = deadline ≤ t

abbrev Banned : ℕ → Option ProxyHealth → Type 0
Banned deadline none = ⊥
Banned deadline (some h) = Until deadline h.banned_until

put-Banned :
    (deadline : ℕ) (d : Dict ProxyHealth) (u url : Text) (h h' : ProxyHealth)
    → get d u ≡ some h
    → (Banned deadline (some h) → Banned deadline (some h'))
    → Banned deadline (get d url)
    → Banned deadline (get (put d u h') url)
put-Banned deadline d u url h h' e more b = elim (Bool-cases (eqb u url)) [
  | inl s ↦
      let same : u ≡ url = ground (arith, eqb_iff u url) in
      let was : get d url ≡ some h = ap (get d) (sym same) ∙ e in
      let is : get (put d u h') url ≡ some h' =
        ap (get (put d u h')) (sym same) ∙ get-put_self d u h' in
      subst (Banned deadline) (sym is) (more (subst (Banned deadline) was b))
  | inr s ↦ subst (Banned deadline) (sym (get-put_ne d u url h' (ground (arith, eqb_iff u url)))) b
]

-- A valid pool in which the proxy is banned up to the deadline.
record Held (deadline cooldown : ℕ) (url : Text) (p : ProxyPool) : Type 0 where
  valid : IsValid p
  cooldown_kept : p.cooldown_seconds ≡ cooldown
  banned_to : Banned deadline (get p.health url)

module _ (start cooldown : ℕ) (url : Text) where
  abbrev deadline : ℕ
  deadline = start + cooldown

  success-Held :
      (u : Option Text) (p : ProxyPool)
      → Held deadline cooldown url p
      → Held deadline cooldown url (record_success u p)
  unfolding record_success
  success-Held none p v = v
  success-Held (some u) p v = elim (Option-cases (get p.health u)) [
    | inl e ↦ rw (e, health_of) v
    | inr (h, e) ↦
        rw (e, health_of)
          (record {
            valid = update-IsValid p u _ v.valid;
            cooldown_kept = v.cooldown_kept;
            banned_to = put-Banned deadline p.health u url h _ e (λ b. b) v.banned_to;
          })
  ]

  ban-Held :
      (now : ℕ) (u : Option Text) (p : ProxyPool)
      → start ≤ now
      → Held deadline cooldown url p
      → Held deadline cooldown url (record_ban now u p)
  unfolding record_ban
  ban-Held now none p l v = v
  ban-Held now (some u) p l v = elim (Option-cases (get p.health u)) [
    | inl e ↦ rw (e, health_of) v
    | inr (h, e) ↦
        rw (e, health_of)
          (record {
            valid = update-IsValid p u _ v.valid;
            cooldown_kept = v.cooldown_kept;
            banned_to =
                put-Banned deadline p.health u url h (banned now u p h) e
                  (λ b. omega (arith, l, v.cooldown_kept)) v.banned_to;
          })
  ]

  Banned-quarantined :
      (now : ℕ) (p : ProxyPool)
      → now < deadline
      → Banned deadline (get p.health url)
      → is_quarantined now p url ≡ true
  Banned-quarantined now p l b = elim (Option-cases (get p.health url)) [
    | inl e ↦ absurd (subst (Banned deadline) e b)
    | inr (h, e) ↦ rw e (until_quarantined now h.banned_until l (subst (Banned deadline) e b))
  ]
    where
      until_quarantined :
          (now : ℕ) (t : Option ℕ)
          → now < deadline
          → Until deadline t
          → elim t [ none ↦ false | some t ↦ ltb now t ] ≡ true
      until_quarantined now none l b = absurd b
      until_quarantined now (some t) l b = ground arith

  lifted-other :
      (u : Text) (h : ProxyHealth) (p : ProxyPool)
      → u ≢ url
      → (get (lifted u h p).health url ≡ get p.health url)
        × ((lifted u h p).cooldown_seconds ≡ p.cooldown_seconds)
  lifted-other u h p ne = elim (Option-cases h.banned_until) [
    | inl e ↦ rw e (refl, refl)
    | inr (t, e) ↦ rw e (get-put_ne p.health u url (record h { banned_until = none }) ne, refl)
  ]

  -- A proxy that is found is not the one that is quarantined.
  other_found :
      (now : ℕ) (p : ProxyPool) (u : Text)
      → is_quarantined now p url ≡ true
      → is_quarantined now p u ≡ false
      → u ≢ url
  other_found now p u q r same = cc

  acquire-Held :
      (now : ℕ) (p : ProxyPool)
      → now < deadline
      → Held deadline cooldown url p
      → (found : Option Text) × (p' : ProxyPool) × (acquire now p ≡ some (found, p'))
        × Held deadline cooldown url p'
        × (found ≢ some url)
  acquire-Held now p l v =
      let q = Banned-quarantined now p l v.banned_to in
      let (found, p', e, valid, choice) = acquire_answers now p v.valid in
      elim (acquire_shape now p v.valid) [
        | inl f ↦ (none, p, f, v, λ s. cc)
        | inr f ↦
            let ne = other_found now p f.url q f.ready in
            let (same, cool) = lifted-other f.url f.health p ne in
            (
              some f.url,
              (advance f.skipped f.url (lifted f.url f.health p)).1,
              f.result,
              record {
                valid =
                    subst IsValid
                      (ap (λ (r : ProxyPool). r)
                        (pool_same (acquire now p) found p' (some f.url)
                          (advance f.skipped f.url (lifted f.url f.health p)).1 e f.result))
                      valid;
                cooldown_kept = cool ∙ v.cooldown_kept;
                banned_to = subst (Banned deadline) (sym same) v.banned_to;
              },
              λ s. ne (some_same f.url url s),
            )
      ]
    where
      some_same : (a b : Text) → some a ≡ some b → a ≡ b
      some_same a b e = cc

      pool_same :
          (r : Option (Option Text × ProxyPool)) (a : Option Text) (p : ProxyPool) (b : Option Text)
          (p' : ProxyPool)
          → r ≡ some (a, p)
          → r ≡ some (b, p')
          → p ≡ p'
      pool_same r a p b p' e f = cc

  step-Held :
      (s : Step) (p : ProxyPool)
      → Between start deadline s
      → Held deadline cooldown url p
      → (p' : ProxyPool) × (step s p ≡ some p') × Held deadline cooldown url p'
  step-Held (acquires now) p b v =
      let (found, p', e, held, _) = acquire-Held now p b v in (p', rw e refl, held)
  step-Held (succeeds u) p b v = (record_success u p, refl, success-Held u p v)
  step-Held (bans now u) p b v = (record_ban now u p, refl, ban-Held now u p b v)

  steps-Held :
      (ss : List Step) (p : ProxyPool)
      → All (Between start deadline) ss
      → Held deadline cooldown url p
      → (p' : ProxyPool) × (steps ss p ≡ some p') × Held deadline cooldown url p'
  steps-Held [] p b v = (p, refl, v)
  steps-Held (s ∷ ss) p b v =
      let (q, e, w) = step-Held s p b.0 v in
      let (p', f, w') = steps-Held ss q b.1 w in (p', rw e f, w')

first_ban :
    (now : ℕ) (url : Text) (p : ProxyPool)
    → IsValid p
    → get p.health url ≢ none
    → Held (now + p.cooldown_seconds) p.cooldown_seconds url (record_ban now (some url) p)
first_ban now url p v t = elim (Option-cases (get p.health url)) [
  | inl e ↦ absurd (t e)
  | inr (h, e) ↦ rw (record_ban-tracked now url p h e) (record {
    valid = update-IsValid p url (banned now url p h) v;
    cooldown_kept = refl;
    banned_to = rw get-put_self (omega arith);
  })
]

-- A proxy of a valid pool that has been banned is not handed out before its cool-down is over, whatever
-- calls of the pool there are in the meantime: acquisitions up to the deadline, successes and further
-- bans of any proxies, this one included. None of these calls raises an exception.
pub ban_excludes :
    (now : ℕ) (url : Text) (p : ProxyPool) (calls : List Step)
    → IsValid p
    → get p.health url ≢ none
    → All (Between now (now + p.cooldown_seconds)) calls
    → (p' : ProxyPool) × (steps calls (record_ban now (some url) p) ≡ some p')
      × ((later : ℕ)
          → later < now + p.cooldown_seconds
          → (found : Option Text) × (p'' : ProxyPool) × (acquire later p' ≡ some (found, p''))
            × (found ≢ some url))
ban_excludes now url p calls v t b =
    let (p', e, w) =
      steps-Held now p.cooldown_seconds url calls (record_ban now (some url) p) b
        (first_ban now url p v t) in
    (
      p',
      e,
      λ later l.
          let (found, p'', f, _, ne) = acquire-Held now p.cooldown_seconds url later p' l w in
          (found, p'', f, ne),
    )
