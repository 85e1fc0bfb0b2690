-- ===== src/Memory.antt =====
-- A store, a cache and a clock in memory, which meet what the theorems assume of the real ones.
pub mod Contract
pub mod Sql
pub mod Caching
pub mod Keyed
mod Samples
use mathlib.Core.List
use truthmetal.Base.{
  ℕ, suc, String, Bool, true, false, ◌&&◌, Option, none, some, List, [], ◌∷◌, ◌++◌, ◌==◌,
  if◌then◌else◌,
}
use truthmetal.Base.Int.{ℤ, pos}
use truthmetal.Exec.{Error, not_found, other, Outcome, returns, fails, Exec, Env}
use truthmetal.Model.{Parameter, LedgerEvent, ParameterState, state_canonical}
use truthmetal.Store.{Store}
use truthmetal.Store.Db.{Db, insert_parameter, set_state, add_event, is_canonical_of}
use truthmetal.Cache.{Redis, ParameterJson, Cache}
use truthmetal.Consensus.{Parsers}

pub record World : Type 0 where
  pub db : Db
  pub clock : ℕ

abbrev pub find : (Parameter → Bool) → List Parameter → Outcome Parameter
find p [] = fails (not_found "parameter")
find p (q ∷ qs) = if p q then returns q else find p qs

abbrev pub memory_store : Store World
memory_store = record {
  create_parameter = λ p w. (returns tt, record w { db = insert_parameter p w.db });
  get_parameter = λ namespace key w. (find (is_canonical_of namespace key) w.db.parameters, w);
  get_parameter_by_id = λ id w. (find (λ p. p.id == id) w.db.parameters, w);
  update_parameter_state =
      λ id state w. (returns tt, record w { db = set_state id state w.clock w.db });
  list_parameter_versions = λ namespace key w. (returns w.db.parameters, w);
  append_event = λ e w. (returns tt, record w { db = add_event e w.db });
  query_audit = λ namespace key limit offset w. (returns (w.db.events, pos 0), w);
}

abbrev pub memory_env : Env World
memory_env = record {
  new_uuid = λ w. (returns "00000000-0000-4000-8000-000000000002", w);
  now = λ w. (returns w.clock, record w { clock = suc w.clock });
}

-- An empty cache that forgets what it is told.
abbrev pub memory_cache : Cache World Parameter
memory_cache = record {
  client = record {
    get = λ k w. (fails (other "redis: nil"), w);
    set = λ k d n w. (returns tt, w);
    del = λ k w. (returns tt, w);
  };
  json = record { marshal = λ p. returns p; unmarshal = λ p. returns p };
}

-- A number is rejected, and all else is accepted.
abbrev pub test_parsers : Parsers
test_parsers = record {
  float_error = λ s. some "invalid syntax";
  json_error = λ s. none;
  rfc3339_error = λ s. none;
  quote = λ s. s;
}
