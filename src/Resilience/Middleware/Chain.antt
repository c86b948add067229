-- ===== src/Resilience/Middleware/Chain.antt =====
-- The four middlewares in the order of their priorities in
-- src/acquire_intel/acquisition/scrapy_settings.py, and the fetch of one request through them. Scrapy
-- calls `process_request` upwards (rotation 582, circuit 583) and `process_response` downwards (backoff
-- 585, circuit 583, rotation 582, ban gate 581); a middleware that answers a request ends the pass, and
-- the request is scheduled again.
pub mod BackoffStage
pub mod CircuitStage
pub mod RotationStage
pub mod Fetch
pub mod Clear
pub mod ClearFetch
pub mod Configured
mod Tests
use acquire_intel.Prelude.{ℕ, zero, suc, Option, Text}
use acquire_intel.Resilience.Backoff.{Random}
use acquire_intel.Resilience.Middleware.{Request, Response, Outcome, pass, retry, ignore, raised}
use acquire_intel.Resilience.Middleware.BanDetection
use acquire_intel.Resilience.Middleware.BanDetection.{BanGate}
use acquire_intel.Resilience.Middleware.BackoffRetry
use acquire_intel.Resilience.Middleware.BackoffRetry.{BackoffRetry}
use acquire_intel.Resilience.Middleware.CircuitBreaker
use acquire_intel.Resilience.Middleware.CircuitBreaker.{
  CircuitMiddleware, Verdict, go_on, refused, asserted,
}
use acquire_intel.Resilience.Middleware.Rotation
use acquire_intel.Resilience.Middleware.Rotation.{Rotation}

-- What comes of a request: a response for the spider, a drop, an exception that is no drop, or a
-- loop cut short.
pub data Fetched : Type 0 where
  delivered : Response → Fetched
  dropped crashed out_of_fuel : Fetched

-- The downloader and the server behind it: how it answers, what clock it shows, and a wait.
pub record World : Type 1 where
  pub State : Type 0
  pub respond : State → Request → Response × State
  pub clock : State → ℕ
  pub wait : ℕ → State → State

module _ (random : Random) (float_of : Text → Option ℕ) where
  pub record Layer : Type 0 where
    pub backoff : BackoffRetry random float_of
    pub circuit : CircuitMiddleware
    pub rotation : Rotation
    pub gate : BanGate

  abbrev pub at_gate : ℕ → Request → Response → Layer → Outcome × Layer
  at_gate now request response l =
      let (o, g) = BanDetection.process_response now request response l.gate in
      (o, record l { gate = g })

  abbrev pub after_rotation : ℕ → Request → Layer → Outcome × Rotation → Outcome × Layer
  after_rotation now request l (pass response, m) =
      at_gate now request response (record l { rotation = m })
  after_rotation now request l (retry delay q, m) = (retry delay q, record l { rotation = m })
  after_rotation now request l (ignore, m) = (ignore, record l { rotation = m })
  after_rotation now request l (raised, m) = (raised, record l { rotation = m })

  abbrev pub at_circuit : ℕ → Request → Response → Layer → Outcome × Layer
  at_circuit now request response l =
      after_rotation now request
        (record l { circuit = CircuitBreaker.process_response now request response l.circuit })
        (Rotation.process_response now request response l.rotation)

  abbrev pub after_backoff :
      ℕ → Request → Layer → Outcome × BackoffRetry random float_of → Outcome × Layer
  after_backoff now request l (pass response, m) =
      at_circuit now request response (record l { backoff = m })
  after_backoff now request l (retry delay q, m) = (retry delay q, record l { backoff = m })
  after_backoff now request l (ignore, m) = (ignore, record l { backoff = m })
  after_backoff now request l (raised, m) = (raised, record l { backoff = m })

  unfoldable pub process_response : ℕ → Request → Response → Layer → Outcome × Layer
  process_response now request response l =
      after_backoff now request l
        (BackoffRetry.process_response random float_of request response l.backoff)

  module _ (world : World) where
    open world use {State, respond, clock, wait}

    abbrev pub settle :
        (Layer → State → Request → Fetched × Layer × State)
        → State
        → Outcome × Layer
        → Fetched × Layer × State
    settle again s (pass response, l) = (delivered response, l, s)
    settle again s (retry delay q, l) = again l (wait delay s) q
    settle again s (ignore, l) = (dropped, l, s)
    settle again s (raised, l) = (crashed, l, s)

    unfoldable pub download :
        (Layer → State → Request → Fetched × Layer × State)
        → Layer
        → State
        → Request
        → Fetched × Layer × State
    download again l s request =
        let (response, s') = respond s request in
        settle again s' (process_response (clock s') request response l)

    abbrev pub admitted :
        (Layer → State → Request → Fetched × Layer × State)
        → Layer
        → State
        → Request
        → Verdict × CircuitMiddleware
        → Fetched × Layer × State
    admitted again l s request (go_on, c) = download again (record l { circuit = c }) s request
    admitted again l s request (refused, c) = (dropped, record l { circuit = c }, s)
    admitted again l s request (asserted, c) = (crashed, record l { circuit = c }, s)

    -- One request, with every retry that the middlewares ask for.
    unfoldable pub fetch : ℕ → Layer → State → Request → Fetched × Layer × State
    unfolding download
    fetch zero l s request = (out_of_fuel, l, s)
    fetch (suc fuel) l s request =
        let stamped = Rotation.process_request request l.rotation in
        admitted (fetch fuel) l s stamped
          (CircuitBreaker.process_request (clock s) stamped l.circuit)
