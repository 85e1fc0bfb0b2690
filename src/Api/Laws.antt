-- ===== src/Api/Laws.antt =====
-- What a client gets back.
use truthmetal.Base.{◌≡◌, ◌≢◌, refl, arith, string_dec}
use truthmetal.Model.{ParameterState, SubmitRequest}
use truthmetal.Store.Db.{Db, NoCanonical}
use truthmetal.Store.Contract.{IsStore}
use truthmetal.Ledger.{Process, Service}
use truthmetal.Ledger.Panics.{submit_of_new_key}
use truthmetal.Api.Messages.{
  StateMessage, submitted, validating, consensus_pending, canonical, rejected, revoked, unspecified,
}
use truthmetal.Api.{crashed, state_to_proto, reply_internal, with_default_type, submit_handler}

-- The state that a message names.
abbrev pub state_of_message : StateMessage → ParameterState
state_of_message unspecified = ""
state_of_message submitted = "SUBMITTED"
state_of_message validating = "VALIDATING"
state_of_message consensus_pending = "CONSENSUS_PENDING"
state_of_message canonical = "CANONICAL"
state_of_message rejected = "REJECTED"
state_of_message revoked = "REVOKED"

message_roundtrip : (m : StateMessage) → state_to_proto (state_of_message m) ≡ m
unfolding state_to_proto string_dec
message_roundtrip unspecified = refl
message_roundtrip submitted = refl
message_roundtrip validating = refl
message_roundtrip consensus_pending = refl
message_roundtrip canonical = refl
message_roundtrip rejected = refl
message_roundtrip revoked = refl

state_roundtrip :
    (s : ParameterState) → state_to_proto s ≢ unspecified → state_of_message (state_to_proto s) ≡ s
unfolding state_to_proto
state_roundtrip s n = ground arith

-- `stateToProto` is one to one between the states and their messages: it takes the state that a
-- message names to that message, and a state that it does not take to UNSPECIFIED is the one
-- that its message names.
pub state_to_proto_roundtrip :
    ((m : StateMessage) → state_to_proto (state_of_message m) ≡ m)
    × ((s : ParameterState)
        → state_to_proto s ≢ unspecified
        → state_of_message (state_to_proto s) ≡ s)
state_to_proto_roundtrip = (message_roundtrip, state_roundtrip)

module _ {W Doc : Type 0} (svc : Service W Doc) {view : W → Db}
    (contract : IsStore svc.store view) where
  -- The first submission of a key crashes its handler: if the store keeps its contract and has no
  -- canonical version of the key, a request with a key, a namespace and a value gets no
  -- response, and the store is as before.
  pub submit_handler_of_new_key :
      (r : SubmitRequest) (s : Process W)
      → r.key ≢ ""
      → r.namespace ≢ ""
      → r.value ≢ ""
      → NoCanonical r.namespace r.key (view s.world)
      → ((submit_handler svc r s).0 ≡ crashed)
        × (view (submit_handler svc r s).1.world ≡ view s.world)
  unfolding submit_handler reply_internal
  submit_handler_of_new_key r s k n v bare =
      let (crash, same, _) = submit_of_new_key svc contract (with_default_type r) s bare in
      (ground (arith, crash), ground (arith, crash, same))
