-- ===== src/Ledger/Threads/Samples.antt =====
-- Overlapping requests for a key with a canonical version in memory.
use truthmetal.Base.{suc, List, [], ◌∷◌, nat_eq, if◌then◌else◌}
use truthmetal.Exec.{returns, Env}
use truthmetal.Model.{Parameter}
use truthmetal.Store.Evolution.{Evolves}
use truthmetal.Memory.{World, memory_store, memory_cache, memory_env, test_parsers}
use truthmetal.Memory.Contract.{memory_store-IsStore, memory_env-IsEnv, memory_cache-IsApart}
use truthmetal.Ledger.{Service, new_service}
use truthmetal.Ledger.Requests.{revoke_request}
use truthmetal.Ledger.Immutability.{turns_immutable}
use truthmetal.Ledger.Samples.{service, held, request, valid_request}
use truthmetal.Ledger.Threads.{asking, System, Turn, serve, resume, turns}
use truthmetal.Ledger.Threads.Twins.{Twins}

abbrev both : System World
both = record { process = held; threads = asking valid_request ∷ asking request ∷ [] }

abbrev schedule : List Turn
schedule =
    resume 0
    ∷ resume 1
    ∷ resume 1
    ∷ serve (revoke_request "risk" "limit" "ana" "wrong")
    ∷ resume 0
    ∷ resume 1
    ∷ []

turns_immutable_example : Evolves held.world.db (turns service both schedule).process.world.db
turns_immutable_example =
    turns_immutable memory_store memory_cache memory_env test_parsers memory_store-IsStore
      memory_env-IsEnv memory_cache-IsApart both schedule

-- A generator with an id of its own for the first version.
abbrev counting_env : Env World
counting_env = record {
  new_uuid = λ w. (
    returns (
        if nat_eq w.clock 3
        then "00000000-0000-4000-8000-000000000002"
        else "00000000-0000-4000-8000-000000000003"),
    record w { clock = suc w.clock },
  );
  now = memory_env.now;
}

abbrev counting : Service World Parameter
counting = new_service memory_store memory_cache counting_env test_parsers
