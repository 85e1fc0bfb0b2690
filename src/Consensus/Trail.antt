-- ===== src/Consensus/Trail.antt =====
-- The verdict on a version, and the transitions of the ledger that lead to it.
use truthmetal.Base.{String, ◌≡◌, Option, none, some, List, [], ◌∷◌, ◌++◌, map}
use truthmetal.Exec.{Error, other}
use truthmetal.Model.{
  Time, LedgerEvent, ParameterState, LedgerEventType, state_submitted, state_validating,
  state_consensus_pending, state_canonical, state_rejected, event_validated,
  event_consensus_reached, event_promoted, event_rejected,
}
use truthmetal.Store.Db.{Db, set_row}

-- What an event tells of a version, without its id and time.
pub record Transition : Type 0 where
  pub parameter_id : String
  pub event_type : LedgerEventType
  pub from_state : ParameterState
  pub to_state : ParameterState
  pub reason : String

abbrev pub transition : LedgerEvent → Transition
transition e = record {
  parameter_id = e.parameter_id;
  event_type = e.event_type;
  from_state = e.from_state;
  to_state = e.to_state;
  reason = e.reason;
}

-- From `before` to `after` the version with the id is in the state, every other is as it was, and
-- the ledger has grown by the transitions.
pub record Lifecycle (id : String) (before : Db) (trail : List Transition) (state : ParameterState)
    (after : Db) : Type 0 where
  pub updated : Time
  pub rows : after.parameters ≡ map (set_row id state updated) before.parameters
  pub entries : List LedgerEvent
  pub ledger : after.events ≡ before.events ++ entries
  pub transitions : map transition entries ≡ trail

-- The verdict on a version, from the answer of `validateValueType`.
abbrev pub verdict_of : Option String → ParameterState × Option Error
verdict_of none = (state_canonical, none)
verdict_of (some message) = (state_rejected, some (other message))

abbrev pub validated : String → Transition
validated id = record {
  parameter_id = id;
  event_type = event_validated;
  from_state = state_submitted;
  to_state = state_validating;
  reason = "";
}

-- The transitions up to the promotion.
abbrev pub reached_of : String → List Transition
reached_of id =
    validated id
    ∷ record {
      parameter_id = id;
      event_type = event_consensus_reached;
      from_state = state_validating;
      to_state = state_consensus_pending;
      reason = "simple-quorum";
    }
    ∷ []

-- The transitions that lead to the verdict.
abbrev pub trail_of : String → Option String → List Transition
trail_of id none =
    validated id
    ∷ record {
      parameter_id = id;
      event_type = event_consensus_reached;
      from_state = state_validating;
      to_state = state_consensus_pending;
      reason = "simple-quorum";
    }
    ∷ record {
      parameter_id = id;
      event_type = event_promoted;
      from_state = state_consensus_pending;
      to_state = state_canonical;
      reason = "";
    }
    ∷ []
trail_of id (some message) =
    validated id
    ∷ record {
      parameter_id = id;
      event_type = event_rejected;
      from_state = state_validating;
      to_state = state_rejected;
      reason = message;
    }
    ∷ []
