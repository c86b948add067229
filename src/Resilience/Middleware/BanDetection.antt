-- ===== src/Resilience/Middleware/BanDetection.antt =====
-- `BanDetectionMiddleware`: record every ban and drop its response.
use acquire_intel.Prelude.{ℕ, Option, none, some, List, [], ◌∷◌, ◌++◌, if◌then◌else◌}
use acquire_intel.Resilience.Classifier.{
  Classification, ok, BanKind, BanAction, classify, ban_kind, recommended_action,
}
use acquire_intel.Resilience.Middleware.{
  Request, Response, Outcome, pass, ignore, raised, Stat, Stats, inc_value, is_infra_request,
}

-- `BanEvent` of src/acquire_intel/contracts.py.
pub record BanEvent : Type 0 where
  pub kind : BanKind
  pub action_taken : BanAction
  pub http_status : Option ℕ
  pub occurred_at : ℕ

-- The collector, and the list that the spider offers for the run's ledger.
pub record BanGate : Type 0 where
  pub stats : Stats
  pub sink : Option (List BanEvent)

abbrev appended : Option (List BanEvent) → BanEvent → Option (List BanEvent)
appended none e = none
appended (some es) e = some (es ++ e ∷ [])

record_event : BanGate → BanEvent → BanGate
record_event g e = record {
  stats = inc_value (Stat.ban e.kind) (inc_value Stat.ban_events g.stats);
  sink = appended g.sink e;
}

-- `_record`; `none` is the KeyError of the two tables.
record_ban : ℕ → Classification → Response → BanGate → Option BanGate
unfolding record_event
record_ban now c response g = elim (ban_kind c) [
  | none ↦ none
  | some kind ↦ elim (recommended_action c) [
    | none ↦ none
    | some action ↦ some (
        record_event g (record {
          kind = kind;
          action_taken = action;
          http_status = some response.status;
          occurred_at = now;
        }))
  ]
]

abbrev dropped : BanGate → Option BanGate → Outcome × BanGate
dropped g none = (raised, g)
dropped g (some g') = (ignore, g')

gate : ℕ → Classification → Response → BanGate → Outcome × BanGate
unfolding record_ban
gate now ok response g = (pass response, g)
gate now c response g = dropped g (record_ban now c response g)

unfoldable pub process_response : ℕ → Request → Response → BanGate → Outcome × BanGate
unfolding gate
process_response now request response g =
    if is_infra_request request
    then (pass response, g)
    else gate now (classify response.status response.body) response g
