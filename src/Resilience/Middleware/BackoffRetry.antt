-- ===== src/Resilience/Middleware/BackoffRetry.antt =====
-- `BackoffRetryMiddleware`: retry 429 and 503 after a delay. The reading of a header as a float is a
-- parameter, in ticks, `none` where it raises ValueError; what is not above 0 may read as 0.
use acquire_intel.Prelude.{
  ℕ, ◌+◌, Bool, true, ◌||◌, not, Option, none, some, [], leb, ◌==◌, if◌then◌else◌, Text, pos,
}
use acquire_intel.Resilience.Backoff.{BackoffPolicy, Random, compute_delay}
use acquire_intel.Resilience.Middleware.{
  Request, Response, Outcome, pass, retry, raised, Stat, Stats, inc_value, counter,
  is_infra_request, present,
}

abbrev pub is_retryable : ℕ → Bool
is_retryable status = status == 429 || status == 503

abbrev pub header_text : Option Text → Text
header_text none = []
header_text (some s) = s

module _ (random : Random) (float_of : Text → Option ℕ) where
  open random use {Rng}

  pub record BackoffRetry : Type 0 where
    pub policy : BackoffPolicy
    pub stats : Stats
    pub rng : Rng

  -- `_parse_retry_after`
  unfoldable pub parse_retry_after : Response → Option ℕ
  parse_retry_after response =
      if present response.retry_after then float_of (header_text response.retry_after) else none

  -- `_RetryPlan`, or none for 'do not retry', or the ValueError of a negative attempt.
  pub data Plan : Type 0 where
    no_retry failed : Plan
    after : (delay : ℕ) → Request → Plan

  abbrev planned : BackoffRetry → Request → ℕ → Option (ℕ × Rng) → Plan × BackoffRetry
  planned m request attempt none = (failed, m)
  planned m request attempt (some (delay, rng)) = (
    after delay (record request { dont_filter = true; backoff_retries = some (attempt + 1) }),
    record m { rng = rng },
  )

  unfoldable pub plan_retry : Request → Response → BackoffRetry → Plan × BackoffRetry
  plan_retry request response m =
      let attempt = counter request.backoff_retries in
      if is_infra_request request || not (is_retryable response.status)
      then (no_retry, m)
      else if leb m.policy.max_retries attempt
      then (no_retry, record m { stats = inc_value Stat.backoff_exhausted m.stats })
      else planned m request attempt
          (compute_delay random (pos attempt) m.policy (parse_retry_after response) m.rng)

  abbrev carried_out : Response → Plan × BackoffRetry → Outcome × BackoffRetry
  carried_out response (no_retry, m) = (pass response, m)
  carried_out response (failed, m) = (raised, m)
  carried_out response (after delay request, m) =
      (retry delay request, record m { stats = inc_value Stat.backoff_retries m.stats })

  -- The wait is the delay of the outcome.
  unfoldable pub process_response : Request → Response → BackoffRetry → Outcome × BackoffRetry
  unfolding plan_retry
  process_response request response m = carried_out response (plan_retry request response m)
