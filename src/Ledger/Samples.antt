-- ===== src/Ledger/Samples.antt =====
-- A key with a canonical version in memory, and the theorems at requests for it.
use mathlib.Core.Bool.{false≢true}
use text.Mathlib.TextEquality.{eq_iff}
use truthmetal.Base.{◌≡◌, ◌≢◌, refl, none, some, List, [], ◌∷◌, string_dec}
use truthmetal.Base.Int.{pos}
use truthmetal.Exec.{returns, fails, panics, other}
use truthmetal.Model.{Parameter, LedgerEvent, SubmitRequest, state_revoked}
use truthmetal.Store.Db.{NoCanonical}
use truthmetal.Consensus.{validate_value_type}
use truthmetal.Memory.{World, memory_store, memory_env, memory_cache, test_parsers}
use truthmetal.Memory.Contract.{
  memory_store-IsStore, memory_store-IsWritable, memory_env-IsEnv, memory_cache-IsApart,
}
use truthmetal.Ledger.{Process, Service, new_service, submit, revoke}
use truthmetal.Ledger.Requests.{submit_request, get_request, run}
use truthmetal.Ledger.Panics.{submit_of_new_key}
use truthmetal.Ledger.NoFirstVersion.{run_of_NoCanonical}
use truthmetal.Ledger.LostValue.{submit_invalid_loses}
use truthmetal.Ledger.Unblocked.{submit_unblocked}
use truthmetal.Ledger.Revocation.{revoke_leaves_none}

abbrev pub service : Service World Parameter
service = new_service memory_store memory_cache memory_env test_parsers

abbrev pub old : Parameter
old = record {
  id = "00000000-0000-4000-8000-000000000001";
  key = "limit";
  value = "10";
  value_type = "number";
  namespace = "risk";
  source = "";
  source_ref = "";
  version = pos 1;
  previous_version_id = "";
  state = "CANONICAL";
  metadata = some [];
  created_at = 1;
  updated_at = 1;
}

abbrev pub request : SubmitRequest
request = record {
  key = "limit";
  value = "ten";
  value_type = "number";
  namespace = "risk";
  source = "";
  source_ref = "";
  metadata = none;
  actor = "ana";
}

abbrev pub with_rows : List Parameter → Process World
with_rows rows = record {
  world = record { db = record { parameters = rows; events = [] }; clock = 2 };
  events = [];
}

abbrev pub held : Process World
held = with_rows (old ∷ [])

abbrev bare : Process World
bare = with_rows []

pub old_named : old.id ≢ ""
old_named e = false≢true ((eq_iff old.id "").1 e)

ten_invalid :
    validate_value_type test_parsers "ten" "number" ≡ some "invalid number: invalid syntax"
unfolding validate_value_type string_dec
ten_invalid = refl

pub old_found : (memory_store.get_parameter "risk" "limit" held.world).0 ≡ returns old
unfolding string_dec
old_found = refl

submit_invalid_loses_example :
    ((submit service request held).0 ≡ fails (other "invalid number: invalid syntax"))
    × NoCanonical "risk" "limit" (submit service request held).1.world.db
submit_invalid_loses_example =
    submit_invalid_loses memory_store memory_cache memory_env test_parsers memory_store-IsStore
      memory_env-IsEnv memory_cache-IsApart memory_store-IsWritable request old
      "invalid number: invalid syntax" held ten_invalid old_found old_named (λ c. refl, tt)

run_of_NoCanonical_example :
    (run service bare (submit_request request ∷ get_request "risk" "limit" ∷ [])).world.db
    ≡ bare.world.db
run_of_NoCanonical_example =
    run_of_NoCanonical service memory_store-IsStore memory_cache-IsApart bare
      (submit_request request ∷ get_request "risk" "limit" ∷ []) (λ namespace key. tt)

submit_of_new_key_example :
    ((submit service request bare).0 ≡ panics)
    × ((submit service request bare).1.world.db ≡ bare.world.db)
    × ((submit service request bare).1.events ≡ [])
submit_of_new_key_example = submit_of_new_key service memory_store-IsStore request bare tt

revoke_leaves_none_example :
    ((revoke service "risk" "limit" "ana" "wrong" held.world).0
      ≡ returns (record old { state = state_revoked }))
    × NoCanonical "risk" "limit" (revoke service "risk" "limit" "ana" "wrong" held.world).1.db
revoke_leaves_none_example =
    revoke_leaves_none service memory_store-IsStore memory_env-IsEnv memory_cache-IsApart
      memory_store-IsWritable "risk" "limit" old "ana" "wrong" held.world old_found (λ c. refl, tt)

abbrev pub valid_request : SubmitRequest
valid_request = record request { value_type = "string" }

pub ten_valid : validate_value_type test_parsers "ten" "string" ≡ none
unfolding validate_value_type string_dec
ten_valid = refl

abbrev waiting : LedgerEvent
waiting = record {
  id = "";
  parameter_id = old.id;
  event_type = "promoted";
  from_state = "";
  to_state = "CANONICAL";
  actor = "";
  reason = "";
  context = none;
  occurred_at = 1;
}

submit_unblocked_example :
    submit service valid_request (record { world = held.world; events = waiting ∷ [] }) ≡ (
      (submit service valid_request held).0,
      record {
        world = (submit service valid_request held).1.world;
        events = waiting ∷ (submit service valid_request held).1.events;
      },
    )
submit_unblocked_example = submit_unblocked service valid_request held.world (waiting ∷ [])
