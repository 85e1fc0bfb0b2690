-- ===== src/Model.antt =====
-- internal/model/parameter.go. States, value types and event types are Go strings, as in the
-- source; a `time.Time` is the nanoseconds since the zero time; a nil map is `none`.
pub mod States
use truthmetal.Base.{ℕ, String, Option, List}
use truthmetal.Base.Int.{ℤ}

abbrev pub ParameterState : Type 0
ParameterState = String

abbrev pub state_submitted : ParameterState
state_submitted = "SUBMITTED"

abbrev pub state_validating : ParameterState
state_validating = "VALIDATING"

abbrev pub state_consensus_pending : ParameterState
state_consensus_pending = "CONSENSUS_PENDING"

abbrev pub state_canonical : ParameterState
state_canonical = "CANONICAL"

abbrev pub state_rejected : ParameterState
state_rejected = "REJECTED"

abbrev pub state_revoked : ParameterState
state_revoked = "REVOKED"

abbrev pub ValueType : Type 0
ValueType = String

abbrev pub type_string : ValueType
type_string = "string"

abbrev pub type_number : ValueType
type_number = "number"

abbrev pub type_bool : ValueType
type_bool = "bool"

abbrev pub type_json : ValueType
type_json = "json"

abbrev pub type_semver : ValueType
type_semver = "semver"

abbrev pub type_timestamp : ValueType
type_timestamp = "timestamp"

abbrev pub Time : Type 0
Time = ℕ

-- `map[string]string`
abbrev pub StringMap : Type 0
StringMap = Option (List (String × String))

pub record Parameter : Type 0 where
  pub id : String
  pub key : String
  pub value : String
  pub value_type : ValueType
  pub namespace : String
  pub source : String
  pub source_ref : String
  pub version : ℤ
  pub previous_version_id : String
  pub state : ParameterState
  pub metadata : StringMap
  pub created_at : Time
  pub updated_at : Time

abbrev pub LedgerEventType : Type 0
LedgerEventType = String

abbrev pub event_submitted : LedgerEventType
event_submitted = "SUBMITTED"

abbrev pub event_validated : LedgerEventType
event_validated = "VALIDATED"

abbrev pub event_consensus_reached : LedgerEventType
event_consensus_reached = "CONSENSUS_REACHED"

abbrev pub event_promoted : LedgerEventType
event_promoted = "PROMOTED"

abbrev pub event_rejected : LedgerEventType
event_rejected = "REJECTED"

abbrev pub event_revoked : LedgerEventType
event_revoked = "REVOKED"

abbrev pub event_superseded : LedgerEventType
event_superseded = "SUPERSEDED"

pub record LedgerEvent : Type 0 where
  pub id : String
  pub parameter_id : String
  pub event_type : LedgerEventType
  pub from_state : ParameterState
  pub to_state : ParameterState
  pub actor : String
  pub reason : String
  pub context : StringMap
  pub occurred_at : Time

pub record SubmitRequest : Type 0 where
  pub key : String
  pub value : String
  pub value_type : ValueType
  pub namespace : String
  pub source : String
  pub source_ref : String
  pub metadata : StringMap
  pub actor : String
