-- ===== src/Api/Samples.antt =====
-- The handlers at a memory store that holds nothing.
use mathlib.Core.Bool.{false, false≢true}
use text.Mathlib.TextEquality.{eq_iff}
use truthmetal.Base.{String, ◌≡◌, ◌≢◌, ◌↔◌, none, refl, List, [], ◌∷◌, ◌++◌}
use truthmetal.Exec.{Error, not_found, returns, Exec, fails, other, ◌>>=◌}
use truthmetal.Model.{Parameter, LedgerEvent, SubmitRequest}
use truthmetal.Memory.{World, memory_store, memory_env, memory_cache, test_parsers}
use truthmetal.Memory.Contract.{memory_store-IsStore}
use truthmetal.Ledger.{Process, Service, new_service, get, get_by_id, revoke}
use truthmetal.Api.Messages.{EventMessage, GetRequest, RevokeRequest, QueryAuditRequest}
use truthmetal.Api.{
  Code, refused, crashed, submit_handler, get_handler, get_version_handler, revoke_handler,
  query_audit_handler, event_to_proto,
}
use truthmetal.Api.Watch.{
  Streams, Move, serve, watch, stream, moves, moves-Extends, moves_drain, has_ended, send_event,
}
use truthmetal.Api.Stopped.{heard, moves_stopped}
use truthmetal.Ledger.Requests.{submit_request}
use truthmetal.Ledger.Channel.{Extends}
use truthmetal.Api.NotFound.{Missing, handlers_not_found}
use truthmetal.Api.Laws.{submit_handler_of_new_key}

abbrev service : Service World Parameter
service = new_service memory_store memory_cache memory_env test_parsers

abbrev request : SubmitRequest
request = record {
  key = "limit";
  value = "10";
  value_type = "";
  namespace = "risk";
  source = "";
  source_ref = "";
  metadata = none;
  actor = "ana";
}

abbrev empty : Process World
empty = record {
  world = record { db = record { parameters = []; events = [] }; clock = 2 };
  events = [];
}

limit_named : request.key ≢ ""
limit_named e = false≢true ((eq_iff "limit" "").1 e)

risk_named : request.namespace ≢ ""
risk_named e = false≢true ((eq_iff "risk" "").1 e)

ten_present : request.value ≢ ""
ten_present e = false≢true ((eq_iff "10" "").1 e)

submit_handler_of_new_key_example :
    ((submit_handler service request empty).0 ≡ crashed)
    × ((submit_handler service request empty).1.world.db ≡ empty.world.db)
submit_handler_of_new_key_example =
    submit_handler_of_new_key service memory_store-IsStore request empty limit_named risk_named
      ten_present tt

abbrev missing : Error
missing = not_found "parameter"

-- At a store with nothing in it and an error that names a parameter.
handlers_not_found_example :
    ((r : GetRequest)
      → ((get_handler service r empty).0 ≡ refused Code.not_found missing) ↔ (
          (r.namespace ≢ "")
          × (r.key ≢ "")
          × Missing missing (get service r.namespace r.key empty.world).0))
    × ((id : String)
        → ((get_version_handler service id empty).0 ≡ refused Code.not_found missing)
          ↔ ((id ≢ "") × Missing missing (get_by_id service id empty.world).0))
    × ((r : RevokeRequest)
        → ((revoke_handler service r empty).0 ≡ refused Code.not_found missing) ↔ (
            (r.namespace ≢ "")
            × (r.key ≢ "")
            × Missing missing (revoke service r.namespace r.key r.actor r.reason empty.world).0))
    × ((r : SubmitRequest) → (submit_handler service r empty).0 ≢ refused Code.not_found missing)
    × ((r : QueryAuditRequest)
        → (query_audit_handler service r empty).0 ≢ refused Code.not_found missing)
handlers_not_found_example = handlers_not_found service empty missing

abbrev promotion : LedgerEvent
promotion = record {
  id = "";
  parameter_id = "00000000-0000-4000-8000-000000000001";
  event_type = "promoted";
  from_state = "";
  to_state = "CANONICAL";
  actor = "";
  reason = "";
  context = none;
  occurred_at = 2;
}

abbrev send : EventMessage → Exec World Unit
send m w = (returns tt, w)

abbrev one_event : Streams World
one_event = record { process = record empty { events = promotion ∷ [] }; received = []; ended = [] }

abbrev turns : List Move
turns = watch 1 ∷ serve (submit_request request) ∷ watch 2 ∷ []

moves-Extends_example :
    Extends
      (stream service send one_event)
      (stream service send (moves service send one_event turns))
moves-Extends_example = moves-Extends service send one_event turns

abbrev two_events : Streams World
two_events = record one_event {
  process = record empty { events = promotion ∷ record promotion { occurred_at = 0 } ∷ [] };
}

seven_goes_on : has_ended 7 two_events.ended ≡ false
unfolding has_ended
seven_goes_on = refl

moves_drain_example :
    ((moves service send two_events (watch 7 ∷ watch 7 ∷ [])).received
      ≡ (7, promotion) ∷ (7, record promotion { occurred_at = 0 }) ∷ [])
    × ((moves service send two_events (watch 7 ∷ watch 7 ∷ [])).process.events ≡ [])
moves_drain_example =
    moves_drain service send (λ w. (w.clock, refl)) (λ m w. refl) 7 two_events seven_goes_on

-- The client is gone.
abbrev unsent : EventMessage → Exec World Unit
unsent m w = (fails (other "canceled"), w)

unsent_fails :
    (send_event service unsent promotion
      (record two_events.process { events = record promotion { occurred_at = 0 } ∷ [] })).0
    ≡ fails (other "canceled")
unfolding send_event event_to_proto ◌>>=◌
unsent_fails = refl

moves_stopped_example :
    ((moves service unsent two_events (watch 7 ∷ [])).process.events
      ≡ record promotion { occurred_at = 0 } ∷ [])
    × ((ms : List Move)
        → heard 7 (moves service unsent two_events (watch 7 ∷ ms)).received
          ≡ heard 7 two_events.received ++ promotion ∷ [])
moves_stopped_example =
    moves_stopped service unsent 7 promotion (record promotion { occurred_at = 0 } ∷ []) two_events
      seven_goes_on refl unsent_fails
