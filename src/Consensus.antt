-- ===== src/Consensus.antt =====
-- internal/consensus: `validateValueType`, the `Protocol` interface and `SimpleQuorum`.
pub mod Footprint
pub mod Telling
pub mod Rejection
pub mod Trail
mod Stages
pub mod Lifecycle
mod Refusal
mod Samples
use Prim.Native.String
use Prim.Native.String.{len}
use mathlib.Core.Option
use truthmetal.Base.{
  ℕ, String, Bool, true, false, ◌&&◌, Option, none, some, [], ◌∷◌, nat_eq, ◌==◌, ◌!=◌,
  if◌then◌else◌,
}
use truthmetal.Exec.{
  Error, other, Outcome, returns, fails, panics, Exec, Env, pure, raise, ignore, ◌>>=◌, ◌>>◌,
}
use truthmetal.Model.{
  ParameterState, state_submitted, state_validating, state_consensus_pending, state_canonical,
  state_rejected, ValueType, type_string, type_number, type_bool, type_json, type_semver,
  type_timestamp, LedgerEventType, event_validated, event_consensus_reached, event_promoted,
  event_rejected, Parameter,
}
use truthmetal.Store.{Store}

-- The standard library's parsers, each the message of its error, and `%q`.
pub record Parsers : Type 0 where
  -- `strconv.ParseFloat(value, 64)`
  pub float_error : String → Option String
  -- `json.Unmarshal([]byte(value), &v)` at `any`
  pub json_error : String → Option String
  -- `time.Parse(time.RFC3339, value)`
  pub rfc3339_error : String → Option String
  pub quote : String → String

abbrev replace_error : String → Option String → Option String
replace_error message none = none
replace_error message (some e) = some message

-- `none` is a nil error, `some` the message of another.
unfoldable pub validate_value_type : Parsers → String → ValueType → Option String
validate_value_type parsers value vt =
    if vt == type_string
    then none
    else if vt == type_number
    then Option.map (String.◌++◌ "invalid number: ") (parsers.float_error value)
    else if vt == type_bool
    then (if value != "true" && value != "false"
        then some "invalid bool: must be 'true' or 'false'"
        else none)
    else if vt == type_json
    then Option.map (String.◌++◌ "invalid json: ") (parsers.json_error value)
    else if vt == type_timestamp
    then replace_error "invalid timestamp: must be RFC3339" (parsers.rfc3339_error value)
    else if vt == type_semver
    then (if nat_eq (len value) 0 then some "invalid semver: empty" else none)
    else some (String.◌++◌ "unknown value_type: " (parsers.quote vt))

-- `Evaluate` returns a state and an error, `none` for nil.
pub record Protocol (W : Type 0) : Type 0 where
  pub evaluate : Parameter → Exec W (ParameterState × Option Error)

-- Each `return` of an error in `Evaluate` returns `StateRejected` beside it.
abbrev rejected_beside : Outcome ParameterState → Outcome (ParameterState × Option Error)
rejected_beside (returns state) = returns (state, none)
rejected_beside (fails e) = returns (state_rejected, some e)
rejected_beside panics = panics

module _ {W : Type 0} (env : Env W) (store : Store W) (parsers : Parsers) where
  pub append_event :
      Parameter
      → LedgerEventType
      → ParameterState
      → ParameterState
      → String
      → String
      → Exec W (Unit {0})
  append_event p event_type from to actor reason = do
    id ← env.new_uuid
    now ← env.now
    store.append_event (record {
      id = id;
      parameter_id = p.id;
      event_type = event_type;
      from_state = from;
      to_state = to;
      actor = actor;
      reason = reason;
      context = some (("protocol", "simple-quorum") ∷ []);
      occurred_at = now;
    })

  -- The part of `Evaluate` behind the test of the value type.
  conclude : Parameter → Option String → Exec W ParameterState
  conclude p (some message) = do
    ignore (store.update_parameter_state p.id state_rejected)
    ignore (append_event p event_rejected state_validating state_rejected "system" message)
    raise (other message)
  conclude p none = do
    store.update_parameter_state p.id state_consensus_pending
    append_event p event_consensus_reached state_validating state_consensus_pending "system"
        "simple-quorum"
    store.update_parameter_state p.id state_canonical
    append_event p event_promoted state_consensus_pending state_canonical "system" ""
    pure state_canonical

  run_consensus : Parameter → Exec W ParameterState
  run_consensus p = do
    store.update_parameter_state p.id state_validating
    append_event p event_validated state_submitted state_validating "system" ""
    conclude p (validate_value_type parsers p.value p.value_type)

  pub evaluate : Parameter → Exec W (ParameterState × Option Error)
  evaluate p w = (rejected_beside (run_consensus p w).0, (run_consensus p w).1)

  abbrev pub simple_quorum : Protocol W
  simple_quorum = record { evaluate = evaluate }
