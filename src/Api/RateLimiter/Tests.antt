-- ===== src/Api/RateLimiter/Tests.antt =====
-- Runs of the limiter.
use acquire_intel.Prelude.{◌≤◌, ◌≡◌, refl, arith, [], ◌∷◌}
use acquire_intel.Api.RateLimiter.{new_limiter, expire, run, within}
use acquire_intel.Api.RateLimiter.Refinement.{reference, run-reference}
use acquire_intel.Api.RateLimiter.Laws.{run-within}

third_waits : (run (1 ∷ 2 ∷ 3 ∷ 61 ∷ []) (new_limiter 2 60)).0 ≡ 1 ∷ 2 ∷ 61 ∷ []
unfolding run expire
third_waits = refl

run-within_example : within 60 61 (run (1 ∷ 2 ∷ 3 ∷ 61 ∷ []) (new_limiter 2 60)).0 ≤ 2
run-within_example =
    run-within 2 60 (1 ∷ 2 ∷ 3 ∷ 61 ∷ []) 61 (omega arith)
      (omega arith, (omega arith, (omega arith, (omega arith, tt)))) (omega arith)

run-reference_example :
    (run (1 ∷ 2 ∷ 3 ∷ 61 ∷ []) (new_limiter 2 60)).0 ≡ reference 2 60 [] (1 ∷ 2 ∷ 3 ∷ 61 ∷ [])
run-reference_example =
    run-reference 2 60 (1 ∷ 2 ∷ 3 ∷ 61 ∷ []) (omega arith)
      (omega arith, (omega arith, (omega arith, (omega arith, tt))))
