-- ===== src/Memory/Keyed.antt =====
-- The memory with a primary key: an id is not inserted twice.
mod Samples
use truthmetal.Base.{
  String, ◌≡◌, ◌≢◌, refl, ap, ◌++◌, inl, Bool, true, false, List, [], ◌∷◌, ◌==◌, ◌||◌, arith, All,
  Bool-cases, if◌then◌else◌, inr,
}
use truthmetal.Exec.{Error, Outcome, other, returns, fails}
use truthmetal.Model.{Parameter}
use truthmetal.Store.{Store}
use truthmetal.Store.Telling.{IsAnswering}
use truthmetal.Store.Db.{insert_parameter}
use truthmetal.Store.Contract.{Wrote, IsStore, HasPrimaryKey}
use truthmetal.Memory.{World, memory_store}
use truthmetal.Memory.Contract.{shows, memory_store-IsStore}

abbrev has_id : String → List Parameter → Bool
has_id id [] = false
has_id id (q ∷ qs) = q.id == id || has_id id qs

abbrev pub keyed_store : Store World
keyed_store = record memory_store {
  create_parameter = λ p w.
      if has_id p.id w.db.parameters
      then (fails (other "duplicate key"), w)
      else (returns tt, record w { db = insert_parameter p w.db });
}

created :
    (p : Parameter) (w : World)
    → Wrote
        (λ before after. after ≡ insert_parameter p before)
        w.db
        (keyed_store.create_parameter p w).0
        (keyed_store.create_parameter p w).1.db
created p w = elim (Bool-cases (has_id p.id w.db.parameters)) [
  | inl taken ↦ rw taken (inl refl)
  | inr free ↦ rw free refl
]

pub keyed_store-IsStore : IsStore keyed_store shows
keyed_store-IsStore = record {
  create = created;
  update = memory_store-IsStore.update;
  append = memory_store-IsStore.append;
  get = memory_store-IsStore.get;
  get_reads = memory_store-IsStore.get_reads;
  by_id = memory_store-IsStore.by_id;
  by_id_reads = memory_store-IsStore.by_id_reads;
  audit_reads = memory_store-IsStore.audit_reads;
  versions_reads = memory_store-IsStore.versions_reads;
}

absent : (id : String) (qs : List Parameter) → has_id id qs ≡ false → All (λ q. q.id ≢ id) qs
absent id [] h = tt
absent id (q ∷ qs) h = (λ e. ground arith, absent id qs (ground arith))

longer : (p : Parameter) (qs : List Parameter) → qs ≢ qs ++ p ∷ []
longer p [] e = cc
longer p (q ∷ qs) e = longer p qs (ap tail e)
  where
    tail : List Parameter → List Parameter
    tail [] = []
    tail (x ∷ xs) = xs

unique :
    (p : Parameter) (w : World)
    → (keyed_store.create_parameter p w).1.db ≡ insert_parameter p w.db
    → All (λ q. q.id ≢ p.id) w.db.parameters
unfolding insert_parameter
unique p w e = elim (Bool-cases (has_id p.id w.db.parameters)) [
  | inl taken ↦ absurd (longer p w.db.parameters (ap (λ d. d.parameters) (rw taken at e)))
  | inr free ↦ absent p.id w.db.parameters free
]

pub keyed_store-HasPrimaryKey : HasPrimaryKey keyed_store shows
keyed_store-HasPrimaryKey = record { created = unique }

returned-ne-fails : (e : Error) → ◌≢◌ {A = Outcome (Unit {0})} (returns tt) (fails e)
returned-ne-fails e h = cc

unmade :
    (p : Parameter) (w : World) (e : Error)
    → (keyed_store.create_parameter p w).0 ≡ fails e
    → (keyed_store.create_parameter p w).1.db ≡ w.db
unmade p w e h = elim (Bool-cases (has_id p.id w.db.parameters)) [
  | inl taken ↦ rw taken refl
  | inr free ↦ absurd (returned-ne-fails e (rw free at h))
]

pub keyed_store-IsAnswering : IsAnswering keyed_store shows
keyed_store-IsAnswering = record {
  appends = λ e w. refl;
  updates = λ id state w n. refl;
  created = λ p w {e} h. unmade p w e h;
  promoted = λ id w {e} h. absurd (returned-ne-fails e h);
}
