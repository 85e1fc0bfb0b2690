-- ===== src/Api.antt =====
-- internal/api/handler.go: the unary handlers, over the service and the messages of
-- proto/truthmetal/v1/truthmetal.proto.
pub mod Messages
pub mod Laws
mod NotFound
mod Watch
mod Stopped
mod Samples
use truthmetal.Base.{ℕ, String, Bool, true, false, ◌||◌, List, [], ◌∷◌, nat_eq, ◌==◌, if◌then◌else◌}
use truthmetal.Base.Int.{ℤ}
use truthmetal.Exec.{
  Error, other, Outcome, returns, fails, panics, Exec, Env, errors_as, pointer_target, pure, ◌>>=◌,
  ◌>>◌,
}
use truthmetal.Model.{
  ParameterState, state_submitted, state_validating, state_consensus_pending, state_canonical,
  state_rejected, state_revoked, type_string, Parameter, LedgerEvent, SubmitRequest,
}
use truthmetal.Ledger.{Process, Service, on_world, submit, get, get_by_id, revoke, query_audit}
use truthmetal.Api.Messages.{
  StateMessage, submitted, validating, consensus_pending, canonical, rejected, revoked, unspecified,
  ParameterMessage, EventMessage, GetRequest, RevokeRequest, QueryAuditRequest, QueryAuditResponse,
}

-- The codes of `connect.NewError` that the program uses.
pub data Code : Type 0 where
  invalid_argument not_found internal unimplemented : Code

-- What a handler gives back: a response, or a Connect error; or it panics.
pub data Reply (A : Type 0) : Type 0 where
  response : A → Reply A
  refused : Code → Error → Reply A
  crashed : Reply A

unfoldable pub state_to_proto : ParameterState → StateMessage
state_to_proto s =
    if s == state_submitted
    then submitted
    else if s == state_validating
    then validating
    else if s == state_consensus_pending
    then consensus_pending
    else if s == state_canonical
    then canonical
    else if s == state_rejected
    then rejected
    else if s == state_revoked
    then revoked
    else unspecified

unfoldable pub to_proto : Parameter → ParameterMessage
to_proto p = record {
  id = p.id;
  key = p.key;
  value = p.value;
  value_type = p.value_type;
  namespace = p.namespace;
  source = p.source;
  source_ref = p.source_ref;
  version = p.version;
  previous_version_id = p.previous_version_id;
  state = state_to_proto p.state;
  metadata = p.metadata;
  created_at = p.created_at;
  updated_at = p.updated_at;
}

abbrev pub event_message : LedgerEvent → ℕ → EventMessage
event_message e t = record {
  id = e.id;
  parameter_id = e.parameter_id;
  event_type = e.event_type;
  from_state = e.from_state;
  to_state = e.to_state;
  actor = e.actor;
  reason = e.reason;
  context = e.context;
  occurred_at = t;
}

-- The code of an error of the service where a missing parameter is told apart, from the answer
-- of `isNotFound`.
abbrev refuse_as : {A : Type 0} → Error → Outcome Bool → Reply A
refuse_as e (returns true) = refused not_found e
refuse_as e (returns false) = refused internal e
refuse_as e (fails x) = crashed
refuse_as e panics = crashed

unfoldable pub is_not_found : Error → Outcome Bool
unfolding errors_as
is_not_found e = errors_as pointer_target e

-- The replies of `Submit` and `QueryAudit`, and those of the others.
unfoldable pub reply_internal : {A B : Type 0} → (A → B) → Outcome A → Reply B
reply_internal f (returns a) = response (f a)
reply_internal f (fails e) = refused internal e
reply_internal f panics = crashed

unfoldable pub reply_classified : {A B : Type 0} → (A → B) → Outcome A → Reply B
reply_classified f (returns a) = response (f a)
reply_classified f (fails e) = refuse_as e (is_not_found e)
reply_classified f panics = crashed

abbrev pub Handler : Type 0 → Type 0 → Type 0
Handler S A = S → Reply A × S

-- `vt := model.ValueType(r.ValueType)`, with its default.
abbrev pub with_default_type : SubmitRequest → SubmitRequest
with_default_type r = record r {
  value_type = if r.value_type == "" then type_string else r.value_type;
}

module _ {W Doc : Type 0} (svc : Service W Doc) where
  -- `eventToProto`, which reads the clock for an event without a time.
  unfoldable pub event_to_proto : LedgerEvent → Exec W EventMessage
  event_to_proto e =
      if nat_eq e.occurred_at 0
      then (do t ← svc.env.now; pure (event_message e t))
      else pure (event_message e e.occurred_at)

  events_to_proto : List LedgerEvent → Exec W (List EventMessage)
  events_to_proto [] = pure []
  events_to_proto (e ∷ es) = do m ← event_to_proto e; ms ← events_to_proto es; pure (m ∷ ms)

  unfoldable pub submit_handler : SubmitRequest → Handler (Process W) ParameterMessage
  submit_handler r s =
      if r.key == "" || r.namespace == ""
      then (refused invalid_argument (other "key and namespace are required"), s)
      else if r.value == ""
      then (refused invalid_argument (other "value is required"), s)
      else (let result = submit svc (with_default_type r) s in
          (reply_internal to_proto result.0, result.1))

  unfoldable pub get_handler : GetRequest → Handler (Process W) ParameterMessage
  get_handler r s =
      if r.namespace == "" || r.key == ""
      then (refused invalid_argument (other "namespace and key are required"), s)
      else (let result = on_world (get svc r.namespace r.key) s in
          (reply_classified to_proto result.0, result.1))

  -- The request has one field, `id`.
  unfoldable pub get_version_handler : String → Handler (Process W) ParameterMessage
  get_version_handler id s =
      if id == ""
      then (refused invalid_argument (other "id is required"), s)
      else (let result = on_world (get_by_id svc id) s in
          (reply_classified to_proto result.0, result.1))

  unfoldable pub revoke_handler : RevokeRequest → Handler (Process W) ParameterMessage
  revoke_handler r s =
      if r.namespace == "" || r.key == ""
      then (refused invalid_argument (other "namespace and key are required"), s)
      else (let result = on_world (revoke svc r.namespace r.key r.actor r.reason) s in
          (reply_classified to_proto result.0, result.1))

  -- The page of events, translated.
  pub audit_page : QueryAuditRequest → Exec W QueryAuditResponse
  audit_page r = do
    (events, total) ← query_audit svc r.namespace r.key r.limit r.offset
    messages ← events_to_proto events
    pure (record { events = messages; total = total })

  unfoldable pub query_audit_handler : QueryAuditRequest → Handler (Process W) QueryAuditResponse
  unfolding audit_page events_to_proto
  query_audit_handler r s =
      if r.namespace == "" || r.key == ""
      then (refused invalid_argument (other "namespace and key are required"), s)
      else (let result = on_world (audit_page r) s in
          (reply_internal (λ page. page) result.0, result.1))
