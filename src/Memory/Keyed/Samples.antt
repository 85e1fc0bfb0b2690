-- ===== src/Memory/Keyed/Samples.antt =====
-- Requests for a key with a canonical text, over the memory with a primary key.
use truthmetal.Base.{none, map, List, refl, [], ◌∷◌, string_dec}
use truthmetal.Model.{Parameter, event_promoted}
use truthmetal.Store.Replay.{Told}
use truthmetal.Ledger.Telling.{run-Told}
use truthmetal.Store.Typed.{CanonicalTyped}
use truthmetal.Consensus.{validate_value_type}
use truthmetal.Ledger.{Process, Service, new_service}
use truthmetal.Ledger.Requests.{Request, submit_request, revoke_request, run}
use truthmetal.Ledger.Typed.{Passes}
use truthmetal.Ledger.Threads.{asking, Turn, serve, resume, turns}
use truthmetal.Ledger.Threads.Typed.{turns-CanonicalTyped}
use truthmetal.Ledger.Samples.{old, request, valid_request, with_rows}
use truthmetal.Memory.{World, memory_cache, memory_env, test_parsers}
use truthmetal.Memory.Contract.{memory_env-IsEnv, memory_cache-IsApart}
use truthmetal.Memory.Keyed.{
  keyed_store, keyed_store-IsStore, keyed_store-HasPrimaryKey, keyed_store-IsAnswering,
}

abbrev service : Service World Parameter
service = new_service keyed_store memory_cache memory_env test_parsers

abbrev held : Process World
held = with_rows (record old { value_type = "string" } ∷ [])

ten-Passes : Passes test_parsers "10" "string"
unfolding validate_value_type string_dec
ten-Passes = refl

-- Two requests overlap, and a third is served between their steps.
abbrev schedule : List Turn
schedule =
    resume 0
    ∷ resume 1
    ∷ resume 0
    ∷ serve (revoke_request "risk" "limit" "ana" "wrong")
    ∷ resume 1
    ∷ resume 1
    ∷ resume 0
    ∷ []

turns-CanonicalTyped_example :
    CanonicalTyped
      (Passes test_parsers)
      (turns service
        (record { process = held; threads = map asking (request ∷ valid_request ∷ []) })
        schedule).process.world.db
turns-CanonicalTyped_example =
    turns-CanonicalTyped keyed_store memory_cache memory_env test_parsers keyed_store-IsStore
      memory_env-IsEnv memory_cache-IsApart keyed_store-HasPrimaryKey held
      (request ∷ valid_request ∷ []) schedule (λ c. ten-Passes, tt)

-- The version that is held, and the event that told of it.
abbrev told : Process World
told = record held {
  world = record held.world {
    db = record {
      parameters = old ∷ [];
      events =
          record {
            id = "00000000-0000-4000-8000-000000000009";
            parameter_id = old.id;
            event_type = event_promoted;
            from_state = "CONSENSUS_PENDING";
            to_state = "CANONICAL";
            actor = "system";
            reason = "";
            context = none;
            occurred_at = 1;
          }
          ∷ [];
    };
  };
}

old-Told : Told told.world.db
unfolding string_dec
old-Told = (refl, tt)

-- A value that is promoted, and one that is refused its id; then a revocation.
abbrev requests : List Request
requests =
    submit_request valid_request
    ∷ submit_request request
    ∷ revoke_request "risk" "limit" "ana" "wrong"
    ∷ []

run-Told_example : Told (run service told requests).world.db
run-Told_example =
    run-Told keyed_store memory_cache memory_env test_parsers keyed_store-IsStore memory_env-IsEnv
      memory_cache-IsApart keyed_store-HasPrimaryKey keyed_store-IsAnswering told requests old-Told
