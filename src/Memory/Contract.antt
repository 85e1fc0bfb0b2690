-- ===== src/Memory/Contract.antt =====
-- The memory meets the contract of the store and the rest of what is assumed.
use truthmetal.Base.{
  String, ◌≡◌, ◌≢◌, refl, ◌⊎◌, inl, inr, Bool, true, false, List, [], ◌∷◌, ◌==◌, arith, All,
  Bool-cases,
}
use truthmetal.Exec.{Error, returns, fails, not_found, IsEnv}
use truthmetal.Model.{Parameter}
use truthmetal.Store.Db.{Db, is_canonical_of, Among}
use truthmetal.Store.Contract.{FoundCanonical, FoundById, IsStore}
use truthmetal.Store.Writable.{IsWritable, IsTaking}
use truthmetal.Cache.{IsApart}
use truthmetal.Memory.{World, find, memory_store, memory_env, memory_cache}

abbrev pub shows : World → Db
shows w = w.db

find_cases :
    (p : Parameter → Bool) (qs : List Parameter)
    → ((q : Parameter) × (find p qs ≡ returns q) × Among q qs × (p q ≡ true))
      ⊎ ((find p qs ≡ fails (not_found "parameter")) × All (λ q. p q ≡ false) qs)
find_cases p [] = inr (refl, tt)
find_cases p (q ∷ qs) = elim (Bool-cases (p q)) [
  | inl t ↦ inl (q, rw t, inl refl, t)
  | inr f ↦ elim (find_cases p qs) [
    | inl (r, e, a, t) ↦ inl (r, rw f e, inr a, t)
    | inr (e, n) ↦ inr (rw f e, (f, n))
  ]
]

-- What is not there is missing, and fails with no other error.
pub find-ne-other :
    (p : Parameter → Bool) (m : String) (qs : List Parameter) → find p qs ≢ fails (Error.other m)
find-ne-other p m qs h = elim (find_cases p qs) [ inl (q, e, a, t) ↦ cc | inr (e, n) ↦ cc ]

find_canonical :
    (namespace key : String) (db : Db)
    → FoundCanonical namespace key db (find (is_canonical_of namespace key) db.parameters)
find_canonical namespace key db = elim (find_cases (is_canonical_of namespace key) db.parameters) [
  | inl (q, e, a, t) ↦ rw e (a, t)
  | inr (e, n) ↦ rw e n
]

none_of :
    (id : String) (qs : List Parameter)
    → All (λ q. (q.id == id) ≡ false) qs
    → All (λ q. (p : q.id ≡ id) → ⊥) qs
none_of id [] h = tt
none_of id (q ∷ qs) (f, h) = (λ e. ground arith, none_of id qs h)

find_by_id : (id : String) (db : Db) → FoundById id db (find (λ p. p.id == id) db.parameters)
find_by_id id db = elim (find_cases (λ p. p.id == id) db.parameters) [
  | inl (q, e, a, t) ↦ rw e (a, ground arith)
  | inr (e, n) ↦ rw e (none_of id db.parameters n)
]

pub memory_store-IsStore : IsStore memory_store shows
memory_store-IsStore = record {
  create = λ p w. refl;
  update = λ id state w. (w.clock, refl);
  append = λ e w. refl;
  get = λ namespace key w. find_canonical namespace key w.db;
  get_reads = λ namespace key w. refl;
  by_id = λ id w. find_by_id id w.db;
  by_id_reads = λ id w. refl;
  audit_reads = λ namespace key limit offset w. refl;
  versions_reads = λ namespace key w. refl;
}

pub memory_store-IsWritable : IsWritable memory_store
memory_store-IsWritable = record {
  creates = λ p w. refl;
  appends = λ e w. refl;
  updates = λ id state w n. refl;
}

pub memory_store-IsTaking : IsTaking memory_store
memory_store-IsTaking = record {
  creates = λ p w. refl;
  updates = λ id state w. refl;
  appends = λ e w. refl;
}

pub memory_env-IsEnv : IsEnv memory_env shows
memory_env-IsEnv = record {
  uuid = λ w. ("00000000-0000-4000-8000-000000000002", refl);
  uuid_reads = λ w. refl;
  now = λ w. (w.clock, refl);
  now_reads = λ w. refl;
}

pub memory_cache-IsApart : IsApart memory_cache.client shows
memory_cache-IsApart = record {
  get_reads = λ k w. refl;
  set_reads = λ k d n w. refl;
  del_reads = λ k w. refl;
  del_answers = λ k w e. cc e;
}
