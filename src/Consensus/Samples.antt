-- ===== src/Consensus/Samples.antt =====
-- `Evaluate` on a version in memory, alone and beside another canonical version of its key.
use mathlib.Core.Bool.{false≢true}
use text.Mathlib.TextEquality.{eq_iff}
use truthmetal.Base.{
  String, ◌≡◌, ◌≢◌, refl, none, some, [], ◌∷◌, inl, inr, false, arith, Bool-cases, ◌==◌,
  if◌then◌else◌,
}
use truthmetal.Base.Int.{pos}
use truthmetal.Exec.{other, returns, fails}
use truthmetal.Model.{
  Parameter, ParameterState, state_canonical, state_consensus_pending, state_rejected,
}
use truthmetal.Store.{Store}
use truthmetal.Store.Db.{set_state}
use truthmetal.Store.Contract.{Wrote, Sets, IsStore}
use truthmetal.Store.Writable.{IsWritable}
use truthmetal.Memory.{World, memory_store, memory_env, test_parsers}
use truthmetal.Memory.Contract.{
  shows, memory_store-IsStore, memory_store-IsWritable, memory_store-IsTaking, memory_env-IsEnv,
}
use truthmetal.Consensus.{validate_value_type, evaluate}
use truthmetal.Consensus.Trail.{Lifecycle, verdict_of, trail_of, reached_of}
use truthmetal.Consensus.Lifecycle.{evaluate-Lifecycle}
use truthmetal.Consensus.Refusal.{HasRival, evaluate_refused}

abbrev flag : Parameter
flag = record {
  id = "00000000-0000-4000-8000-000000000003";
  key = "enabled";
  value = "true";
  value_type = "bool";
  namespace = "risk";
  source = "";
  source_ref = "";
  version = pos 2;
  previous_version_id = "";
  state = "SUBMITTED";
  metadata = some [];
  created_at = 1;
  updated_at = 1;
}

abbrev world : World
world = record { db = record { parameters = flag ∷ []; events = [] }; clock = 2 }

flag_valid : validate_value_type test_parsers flag.value flag.value_type ≡ none
unfolding validate_value_type truthmetal.Base.string_dec
flag_valid = refl

evaluate-Lifecycle_example :
    ((evaluate memory_env memory_store test_parsers flag world).0 ≡ returns (verdict_of none))
    × Lifecycle flag.id world.db
        (trail_of flag.id none)
        (verdict_of none).0
        (evaluate memory_env memory_store test_parsers flag world).1.db
evaluate-Lifecycle_example =
    evaluate-Lifecycle memory_env memory_store test_parsers memory_store-IsStore memory_env-IsEnv
      memory_store-IsTaking flag world none flag_valid

-- A store that refuses each promotion.
abbrev refusing_store : Store World
refusing_store = record memory_store {
  update_parameter_state = λ id state w.
      if state == state_canonical
      then (fails (other "duplicate key"), w)
      else (returns tt, record w { db = set_state id state w.clock w.db });
}

refuses :
    (id : String) (state : ParameterState) (w : World)
    → Wrote
        (Sets id state)
        w.db
        (refusing_store.update_parameter_state id state w).0
        (refusing_store.update_parameter_state id state w).1.db
refuses id state w = elim (Bool-cases (state == state_canonical)) [
  | inl same ↦ rw same (inl refl)
  | inr differs ↦ rw differs (w.clock, refl)
]

refusing_store-IsStore : IsStore refusing_store shows
refusing_store-IsStore = record {
  create = memory_store-IsStore.create;
  update = refuses;
  append = memory_store-IsStore.append;
  get = memory_store-IsStore.get;
  get_reads = memory_store-IsStore.get_reads;
  by_id = memory_store-IsStore.by_id;
  by_id_reads = memory_store-IsStore.by_id_reads;
  audit_reads = memory_store-IsStore.audit_reads;
  versions_reads = memory_store-IsStore.versions_reads;
}

taken :
    (id : String) (state : ParameterState) (w : World)
    → state ≢ state_canonical
    → (refusing_store.update_parameter_state id state w).0 ≡ returns tt
taken id state w n =
    let differs : (state == state_canonical) ≡ false = ground arith in rw differs refl

refusing_store-IsWritable : IsWritable refusing_store
refusing_store-IsWritable = record {
  creates = memory_store-IsWritable.creates;
  appends = memory_store-IsWritable.appends;
  updates = taken;
}

abbrev rival : Parameter
rival = record flag { id = "00000000-0000-4000-8000-000000000004"; state = "CANONICAL" }

abbrev contested : World
contested = record world { db = record { parameters = rival ∷ flag ∷ []; events = [] } }

contested-HasRival : HasRival flag contested.db
unfolding truthmetal.Base.string_dec
contested-HasRival = record {
  rival = rival;
  held = inl refl;
  other_id = λ e. false≢true ((eq_iff rival.id flag.id).1 e);
  canonical = refl;
}

refused_promotion :
    (w : World)
    → HasRival flag w.db
    → ((refusing_store.update_parameter_state flag.id state_canonical w).0
        ≡ fails (other "duplicate key"))
      × ((refusing_store.update_parameter_state flag.id state_canonical w).1.db ≡ w.db)
unfolding truthmetal.Base.string_dec
refused_promotion w h = (refl, refl)

evaluate_refused_example :
    ((evaluate memory_env refusing_store test_parsers flag contested).0
      ≡ returns (state_rejected, some (other "duplicate key")))
    × Lifecycle flag.id contested.db
        (reached_of flag.id)
        state_consensus_pending
        (evaluate memory_env refusing_store test_parsers flag contested).1.db
evaluate_refused_example =
    evaluate_refused memory_env refusing_store test_parsers refusing_store-IsStore memory_env-IsEnv
      refusing_store-IsWritable flag (other "duplicate key") refused_promotion contested flag_valid
      contested-HasRival
