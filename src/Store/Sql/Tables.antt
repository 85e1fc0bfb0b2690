-- ===== src/Store/Sql/Tables.antt =====
-- The two tables of migrations/, and their columns by name.
use truthmetal.Base.{String, Option, none, some, List, [], ◌∷◌, ◌==◌, if◌then◌else◌, lookup}
use truthmetal.Base.Int.{ℤ}
use truthmetal.Model.{Time}
use truthmetal.Store.Sql.{Value, text, number, time, json, null}

-- `previous_version_id` may be NULL.
pub record ParameterRow (Doc : Type 0) : Type 0 where
  pub id : String
  pub key : String
  pub value : String
  pub value_type : String
  pub namespace : String
  pub source : String
  pub source_ref : String
  pub version : ℤ
  pub previous_version_id : Option String
  pub state : String
  pub metadata : Doc
  pub created_at : Time
  pub updated_at : Time

pub record EventRow (Doc : Type 0) : Type 0 where
  pub id : String
  pub parameter_id : String
  pub event_type : String
  pub from_state : String
  pub to_state : String
  pub actor : String
  pub reason : String
  pub context : Doc
  pub occurred_at : Time

pub record Tables (Doc : Type 0) : Type 0 where
  pub parameters : List (ParameterRow Doc)
  pub ledger_events : List (EventRow Doc)

module _ {Doc : Type 0} where
  abbrev pub nullable : Option String → Value Doc
  nullable none = null
  nullable (some s) = text s

  -- A column that is not there is NULL.
  abbrev pub parameter_column : ParameterRow Doc → String → Value Doc
  parameter_column r c =
      if c == "id"
      then text r.id
      else if c == "key"
      then text r.key
      else if c == "value"
      then text r.value
      else if c == "value_type"
      then text r.value_type
      else if c == "namespace"
      then text r.namespace
      else if c == "source"
      then text r.source
      else if c == "source_ref"
      then text r.source_ref
      else if c == "version"
      then number r.version
      else if c == "previous_version_id"
      then nullable r.previous_version_id
      else if c == "state"
      then text r.state
      else if c == "metadata"
      then json r.metadata
      else if c == "created_at"
      then time r.created_at
      else if c == "updated_at"
      then time r.updated_at
      else null

  abbrev pub event_column : EventRow Doc → String → Value Doc
  event_column r c =
      if c == "id"
      then text r.id
      else if c == "parameter_id"
      then text r.parameter_id
      else if c == "event_type"
      then text r.event_type
      else if c == "from_state"
      then text r.from_state
      else if c == "to_state"
      then text r.to_state
      else if c == "actor"
      then text r.actor
      else if c == "reason"
      then text r.reason
      else if c == "context"
      then json r.context
      else if c == "occurred_at"
      then time r.occurred_at
      else null

  -- The columns of a row with the values for them.
  abbrev pub zip : List String → List (Value Doc) → List (String × Value Doc)
  zip (c ∷ cs) (v ∷ vs) = (c, v) ∷ zip cs vs
  zip _ _ = []

module _ {A B : Type 0} where
  infixl 5 ◌>>=◌
  abbrev pub ◌>>=◌ : Option A → (A → Option B) → Option B
  none >>= f = none
  some a >>= f = f a

-- The values of the columns of an inserted row, at the type of the column.
module _ {Doc : Type 0} where
  abbrev pub as_text : Option (Value Doc) → Option String
  as_text (some (text s)) = some s
  as_text _ = none

  abbrev pub as_nullable : Option (Value Doc) → Option (Option String)
  as_nullable (some (text s)) = some (some s)
  as_nullable (some null) = some none
  as_nullable _ = none

  abbrev pub as_number : Option (Value Doc) → Option ℤ
  as_number (some (number n)) = some n
  as_number _ = none

  abbrev pub as_time : Option (Value Doc) → Option Time
  as_time (some (time t)) = some t
  as_time _ = none

  abbrev pub as_json : Option (Value Doc) → Option Doc
  as_json (some (json d)) = some d
  as_json _ = none

  abbrev pub parameter_row : List (String × Value Doc) → Option (ParameterRow Doc)
  parameter_row cs = do
    id ← as_text (lookup "id" cs)
    key ← as_text (lookup "key" cs)
    content ← as_text (lookup "value" cs)
    value_type ← as_text (lookup "value_type" cs)
    namespace ← as_text (lookup "namespace" cs)
    source ← as_text (lookup "source" cs)
    source_ref ← as_text (lookup "source_ref" cs)
    version ← as_number (lookup "version" cs)
    previous ← as_nullable (lookup "previous_version_id" cs)
    state ← as_text (lookup "state" cs)
    metadata ← as_json (lookup "metadata" cs)
    created ← as_time (lookup "created_at" cs)
    updated ← as_time (lookup "updated_at" cs)
    some (record {
      id = id;
      key = key;
      value = content;
      value_type = value_type;
      namespace = namespace;
      source = source;
      source_ref = source_ref;
      version = version;
      previous_version_id = previous;
      state = state;
      metadata = metadata;
      created_at = created;
      updated_at = updated;
    })

  abbrev pub event_row : List (String × Value Doc) → Option (EventRow Doc)
  event_row cs = do
    id ← as_text (lookup "id" cs)
    parameter_id ← as_text (lookup "parameter_id" cs)
    event_type ← as_text (lookup "event_type" cs)
    from ← as_text (lookup "from_state" cs)
    target ← as_text (lookup "to_state" cs)
    actor ← as_text (lookup "actor" cs)
    reason ← as_text (lookup "reason" cs)
    context ← as_json (lookup "context" cs)
    occurred ← as_time (lookup "occurred_at" cs)
    some (record {
      id = id;
      parameter_id = parameter_id;
      event_type = event_type;
      from_state = from;
      to_state = target;
      actor = actor;
      reason = reason;
      context = context;
      occurred_at = occurred;
    })
