-- ===== src/Memory/Caching.antt =====
-- The memory with a cache beside it that keeps what it is told.
mod Samples
use truthmetal.Base.{String, ◌≡◌, refl, sym, ◌==◌, if◌then◌else◌, arith}
use truthmetal.Exec.{other, Outcome, returns, fails, Exec, Env, IsEnv}
use truthmetal.Model.{Parameter}
use truthmetal.Store.{Store}
use truthmetal.Store.Db.{Db}
use truthmetal.Store.Contract.{IsStore}
use truthmetal.Store.Writable.{IsWritable, IsTaking}
use truthmetal.Cache.{Cache, IsApart, cache_key}
use truthmetal.Memory.{World, memory_store, memory_env}
use truthmetal.Memory.Contract.{memory_store-IsStore}
use truthmetal.Ledger.Overlap.{Remembers}

-- What Redis answers for each key.
abbrev pub Kept : Type 0
Kept = String → Outcome Parameter

abbrev pub CachingWorld : Type 0
CachingWorld = World × Kept

abbrev beside : {A : Type 0} → Exec World A → Exec CachingWorld A
beside m s = ((m s.0).0, ((m s.0).1, s.1))

abbrev pub caching_store : Store CachingWorld
caching_store = record {
  create_parameter = λ p. beside (memory_store.create_parameter p);
  get_parameter = λ namespace key. beside (memory_store.get_parameter namespace key);
  get_parameter_by_id = λ id. beside (memory_store.get_parameter_by_id id);
  update_parameter_state = λ id state. beside (memory_store.update_parameter_state id state);
  list_parameter_versions =
      λ namespace key. beside (memory_store.list_parameter_versions namespace key);
  append_event = λ e. beside (memory_store.append_event e);
  query_audit =
      λ namespace key limit offset. beside (memory_store.query_audit namespace key limit offset);
}

abbrev pub caching_env : Env CachingWorld
caching_env = record { new_uuid = beside memory_env.new_uuid; now = beside memory_env.now }

abbrev entry : String → Outcome Parameter → Kept → Kept
entry k o kept k' = if k' == k then o else kept k'

abbrev pub caching_cache : Cache CachingWorld Parameter
caching_cache = record {
  client = record {
    get = λ k s. (s.1 k, s);
    set = λ k d n s. (returns tt, (s.0, entry k (returns d) s.1));
    del = λ k s. (returns tt, (s.0, entry k (fails (other "redis: nil")) s.1));
  };
  json = record { marshal = λ p. returns p; unmarshal = λ p. returns p };
}

abbrev pub database : CachingWorld → Db
database s = s.0.db

pub caching_store-IsStore : IsStore caching_store database
caching_store-IsStore = record {
  create = λ p s. memory_store-IsStore.create p s.0;
  update = λ id state s. memory_store-IsStore.update id state s.0;
  append = λ e s. memory_store-IsStore.append e s.0;
  get = λ namespace key s. memory_store-IsStore.get namespace key s.0;
  get_reads = λ namespace key s. refl;
  by_id = λ id s. memory_store-IsStore.by_id id s.0;
  by_id_reads = λ id s. refl;
  audit_reads = λ namespace key limit offset s. refl;
  versions_reads = λ namespace key s. refl;
}

pub caching_store-IsWritable : IsWritable caching_store
caching_store-IsWritable = record {
  creates = λ p s. refl;
  appends = λ e s. refl;
  updates = λ id state s n. refl;
}

pub caching_store-IsTaking : IsTaking caching_store
caching_store-IsTaking = record {
  creates = λ p s. refl;
  updates = λ id state s. refl;
  appends = λ e s. refl;
}

pub caching_env-IsEnv : IsEnv caching_env database
caching_env-IsEnv = record {
  uuid = λ s. ("00000000-0000-4000-8000-000000000002", refl);
  uuid_reads = λ s. refl;
  now = λ s. (s.0.clock, refl);
  now_reads = λ s. refl;
}

pub caching_cache-IsApart : IsApart caching_cache.client database
caching_cache-IsApart = record {
  get_reads = λ k s. refl;
  set_reads = λ k d n s. refl;
  del_reads = λ k s. refl;
  del_answers = λ k s e. cc e;
}

pub caching_cache-Remembers : (p : Parameter) → Remembers caching_cache p
caching_cache-Remembers p = record {
  doc = p;
  marshalled = refl;
  unmarshalled = refl;
  set = λ k s. refl;
  kept = λ k s. ground arith;
}
