-- ===== src/Resilience/Middleware/Chain/RotationStage.antt =====
-- What the rotation middleware and the ban gate may answer, from a valid state.
use acquire_intel.Prelude.{
  ℕ, ◌+◌, ◌<◌, ◌≡◌, refl, ◌∙◌, ◌⊎◌, inl, inr, true, some, leb, arith, Bool-cases,
}
use acquire_intel.Resilience.Classifier.{
  Classification, ok, rate_limited, blocked, captcha, empty, classify, ban_kind, recommended_action,
}
use acquire_intel.Resilience.Identity.Laws as Identities
use acquire_intel.Resilience.Proxy.{record_success as proxy_success, record_ban as proxy_ban}
use acquire_intel.Resilience.Proxy.Laws as Proxies
use acquire_intel.Resilience.Proxy.Bans as Bans
use acquire_intel.Resilience.Middleware.{
  Request, Response, Outcome, pass, retry, ignore, Stat, inc_value, counter, is_infra_request,
  present,
}
use acquire_intel.Resilience.Middleware.Rotation
use acquire_intel.Resilience.Middleware.Rotation.{
  Rotation, escalate, bounded_retry, escalated_retry, rotation_retry, next_proxy, cookie_retry,
  respond,
}
use acquire_intel.Resilience.Middleware.BanDetection
use acquire_intel.Resilience.Middleware.BanDetection.{BanGate}

pub record RotationValid (m : Rotation) : Type 0 where
  pub identities : Identities.IsValid m.identities
  pub proxies : Proxies.IsValid m.proxies

-- What rotation may answer: it passes the response on, or tries the request again with one more
-- attempt to its count, and had attempts left.
pub data RotationAnswer (p : Request) (r : Response) (m : Rotation) (o : Outcome × Rotation)
    : Type 0 where
  passes :
      (m' : Rotation)
      → o ≡ (pass r, m')
      → m'.max_attempts ≡ m.max_attempts
      → RotationValid m'
      → RotationAnswer p r m o
  retries :
      (q : Request) (m' : Rotation)
      → o ≡ (retry 0 q, m')
      → m'.max_attempts ≡ m.max_attempts
      → RotationValid m'
      → q.rotation_attempts ≡ some (counter p.rotation_attempts + 1)
      → counter p.rotation_attempts < m.max_attempts
      → q.backoff_retries ≡ p.backoff_retries
      → q.dont_obey_robotstxt ≡ p.dont_obey_robotstxt
      → RotationAnswer p r m o

escalate-total :
    (m : Rotation)
    → RotationValid m
    → (m' : Rotation) × (escalate m ≡ some m')
      × RotationValid m'
      × (m'.max_attempts ≡ m.max_attempts)
unfolding escalate
escalate-total m v = elim (Bool-cases m.escalated) [
  | inl e ↦
      let (ids, f, a) = Identities.rotate-After m.identities v.identities in
      (
        record m { identities = ids },
        ground arith,
        record { identities = a.valid; proxies = v.proxies },
        refl,
      )
  | inr e ↦ (
    record m { escalated = true },
    ground arith,
    record { identities = v.identities; proxies = v.proxies },
    refl,
  )
]

abbrev retried : Request → Request
retried p = record p {
  dont_filter = true;
  rotation_attempts = some (counter p.rotation_attempts + 1);
}

escalated_answers :
    (now : ℕ) (p : Request) (r : Response) (m m1 : Rotation)
    → RotationValid m1
    → m1.max_attempts ≡ m.max_attempts
    → counter p.rotation_attempts < m.max_attempts
    → RotationAnswer p r m (escalated_retry now (retried p) m1 (escalate m1))
escalated_answers now p r m m1 v same below =
    let (m2, e, v2, same2) = escalate-total m1 v in
    let (proxy, proxies, f, vp, _) = Proxies.acquire_answers now m2.proxies v2.proxies in
    retries (retried p) (record m2 { proxies = proxies; proxy = proxy })
      (rw (e, escalated_retry, f, next_proxy)) (same2 ∙ same)
      (record { identities = v2.identities; proxies = vp }) refl below refl refl

rotation_answers-ban :
    (now : ℕ) (p : Request) (r : Response) (m : Rotation)
    → RotationValid m
    → RotationAnswer p r m (rotation_retry now r (bounded_retry p Stat.identity_rotations m))
unfolding bounded_retry
rotation_answers-ban now p r m v =
    elim (Bool-cases (leb m.max_attempts (counter p.rotation_attempts))) [
      | inl e ↦
          rw (e, rotation_retry)
            (passes (record m { stats = inc_value Stat.rotation_exhausted m.stats }) refl refl
              (record { identities = v.identities; proxies = v.proxies }))
      | inr e ↦
          rw (e, rotation_retry)
            (escalated_answers now p r m
              (record m {
                stats = inc_value Stat.identity_rotations m.stats;
                proxies = proxy_ban now m.proxy m.proxies;
              })
              (record {
                identities = v.identities;
                proxies = Bans.record_ban-IsValid now m.proxy m.proxies v.proxies;
              })
              refl (ground arith))
    ]

rotation_answers-cookie :
    (p : Request) (r : Response) (m : Rotation)
    → RotationValid m
    → RotationAnswer p r m (cookie_retry r (bounded_retry p Stat.cookie_retries m))
unfolding bounded_retry
rotation_answers-cookie p r m v =
    elim (Bool-cases (leb m.max_attempts (counter p.rotation_attempts))) [
      | inl e ↦ rw (e, cookie_retry) (passes m refl refl v)
      | inr e ↦
          rw (e, cookie_retry)
            (retries (retried p) (record m { stats = inc_value Stat.cookie_retries m.stats }) refl
              refl (record { identities = v.identities; proxies = v.proxies }) refl (ground arith)
              refl refl)
    ]

respond_answers :
    (now : ℕ) (c : Classification) (p : Request) (r : Response) (m : Rotation)
    → RotationValid m
    → RotationAnswer p r m (respond now c p r m)
unfolding respond
respond_answers now ok p r m v =
    passes (record m { proxies = proxy_success m.proxy m.proxies }) refl refl
      (record {
        identities = v.identities;
        proxies = Bans.record_success-IsValid m.proxy m.proxies v.proxies;
      })
respond_answers now rate_limited p r m v = passes m refl refl v
respond_answers now captcha p r m v = rotation_answers-ban now p r m v
respond_answers now empty p r m v = rotation_answers-ban now p r m v
respond_answers now blocked p r m v = elim (Bool-cases (present r.set_cookie)) [
  | inl e ↦ rw e (rotation_answers-cookie p r m v)
  | inr e ↦ rw e (rotation_answers-ban now p r m v)
]

pub rotation_answers :
    (now : ℕ) (p : Request) (r : Response) (m : Rotation)
    → RotationValid m
    → RotationAnswer p r m (Rotation.process_response now p r m)
unfolding Rotation.process_response
rotation_answers now p r m v = elim (Bool-cases (is_infra_request p)) [
  | inl e ↦ simp e (passes m refl refl v)
  | inr e ↦ simp e (respond_answers now (classify r.status r.body) p r m v)
]

-- The gate passes an infrastructure response or an `ok` one, as it is, and drops any other.
pub gate_answers :
    (now : ℕ) (p : Request) (r : Response) (g : BanGate)
    → ((BanDetection.process_response now p r g).0 ≡ pass r)
        × ((is_infra_request p ≡ true) ⊎ (classify r.status r.body ≡ ok))
      ⊎ ((BanDetection.process_response now p r g).0 ≡ ignore)
unfolding BanDetection.process_response ban_kind recommended_action
gate_answers now p r g = ground arith
