-- ===== src/Resilience/Middleware/Chain/BackoffStage.antt =====
-- What the backoff middleware may answer.
use acquire_intel.Prelude.{
  ℕ, ◌+◌, ◌<◌, ◌≤◌, ◌≡◌, refl, inl, inr, true, ◌||◌, not, Option, some, leb, Text, arith,
  Bool-cases,
}
use acquire_intel.Resilience.Backoff.{Random}
use acquire_intel.Resilience.Backoff.Laws.{compute_delay-total}
use acquire_intel.Resilience.Middleware.{
  Request, Response, Outcome, pass, retry, Stat, inc_value, counter, is_infra_request,
}
use acquire_intel.Resilience.Middleware.BackoffRetry
use acquire_intel.Resilience.Middleware.BackoffRetry.{
  BackoffRetry, Plan, no_retry, failed, after, parse_retry_after, plan_retry, is_retryable,
}

-- A request that backoff tries again has one more retry to its count, and had not used them up.
pub record BackoffRetried (max_retries : ℕ) (p q : Request) : Type 0 where
  pub counted : q.backoff_retries ≡ some (counter p.backoff_retries + 1)
  pub below : counter p.backoff_retries < max_retries
  pub other : q.rotation_attempts ≡ p.rotation_attempts
  pub infra : q.dont_obey_robotstxt ≡ p.dont_obey_robotstxt

module _ (random : Random) (float_of : Text → Option ℕ) where
  pub data BackoffAnswer (p : Request) (r : Response) (m : BackoffRetry random float_of)
      (o : Outcome × BackoffRetry random float_of) : Type 0 where
    passes :
        (m' : BackoffRetry random float_of)
        → o ≡ (pass r, m')
        → m'.policy ≡ m.policy
        → BackoffAnswer p r m o
    retries :
        (delay : ℕ) (q : Request) (m' : BackoffRetry random float_of)
        → o ≡ (retry delay q, m')
        → m'.policy ≡ m.policy
        → BackoffRetried m.policy.max_retries p q
        → BackoffAnswer p r m o

  pub backoff_answers :
      (p : Request) (r : Response) (m : BackoffRetry random float_of)
      → m.policy.max_retries ≤ 1024
      → BackoffAnswer p r m (BackoffRetry.process_response random float_of p r m)
  unfolding BackoffRetry.process_response
  backoff_answers p r m few =
      elim (Bool-cases (is_infra_request p || not (is_retryable r.status))) [
        | inl e ↦ passes m (rw e) refl
        | inr e ↦ elim (Bool-cases (leb m.policy.max_retries (counter p.backoff_retries))) [
          | inl f ↦
              passes (record m { stats = inc_value Stat.backoff_exhausted m.stats }) (rw (e, f))
                refl
          | inr f ↦
              let (delay, rng, found, _, _, _) =
                compute_delay-total random (counter p.backoff_retries) m.policy
                  (parse_retry_after random float_of r) m.rng (ground arith) in
              retries delay
                (record p {
                  dont_filter = true;
                  backoff_retries = some (counter p.backoff_retries + 1);
                })
                (record m { rng = rng; stats = inc_value Stat.backoff_retries m.stats })
                (rw (e, f, found)) refl
                (record { counted = refl; below = ground arith; other = refl; infra = refl })
        ]
      ]
