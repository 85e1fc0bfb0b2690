-- ===== src/Store/Contract.antt =====
-- What `Store` promises its callers, in terms of the `Db` that a world shows.
use truthmetal.Base.{String, ◌≡◌, ◌≢◌, ◌⊎◌, true, All}
use truthmetal.Base.Int.{ℤ}
use truthmetal.Exec.{Outcome, returns, fails, panics, Error, not_found}
use truthmetal.Model.{Time, Parameter, LedgerEvent, ParameterState}
use truthmetal.Store.{Store}
use truthmetal.Store.Db.{
  Db, insert_parameter, set_state, add_event, is_canonical_of, NoCanonical, Among,
}

-- A write that returns has taken effect; one that fails has or has not (the answer may be lost
-- behind a commit). It does not panic.
abbrev pub Wrote : {A : Type 0} → (Db → Db → Type 0) → Db → Outcome A → Db → Type 0
Wrote R before (returns a) after = R before after
Wrote R before (fails e) after = (after ≡ before) ⊎ R before after
Wrote R before panics after = ⊥

abbrev pub Sets : String → ParameterState → Db → Db → Type 0
Sets id state before after = (now : Time) × (after ≡ set_state id state now before)

-- What `GetParameter` may answer.
abbrev pub FoundCanonical : String → String → Db → Outcome Parameter → Type 0
FoundCanonical namespace key db (returns p) =
    Among p db.parameters × (is_canonical_of namespace key p ≡ true)
FoundCanonical namespace key db (fails (not_found r)) = NoCanonical namespace key db
FoundCanonical namespace key db (fails (Error.other m)) = Unit
FoundCanonical namespace key db panics = ⊥

-- What `GetParameterByID` may answer.
abbrev pub FoundById : String → Db → Outcome Parameter → Type 0
FoundById id db (returns p) = Among p db.parameters × (p.id ≡ id)
FoundById id db (fails (not_found r)) = All (λ q. (p : q.id ≡ id) → ⊥) db.parameters
FoundById id db (fails (Error.other m)) = Unit
FoundById id db panics = ⊥

pub record IsStore {W : Type 0} (store : Store W) (view : W → Db) : Type 0 where
  pub create :
      (p : Parameter) (w : W)
      → Wrote
          (λ before after. after ≡ insert_parameter p before)
          (view w)
          (store.create_parameter p w).0
          (view (store.create_parameter p w).1)
  pub update :
      (id : String) (state : ParameterState) (w : W)
      → Wrote
          (Sets id state)
          (view w)
          (store.update_parameter_state id state w).0
          (view (store.update_parameter_state id state w).1)
  pub append :
      (e : LedgerEvent) (w : W)
      → Wrote
          (λ before after. after ≡ add_event e before)
          (view w)
          (store.append_event e w).0
          (view (store.append_event e w).1)
  pub get :
      (namespace key : String) (w : W)
      → FoundCanonical namespace key (view w) (store.get_parameter namespace key w).0
  pub get_reads :
      (namespace key : String) (w : W) → view (store.get_parameter namespace key w).1 ≡ view w
  pub by_id : (id : String) (w : W) → FoundById id (view w) (store.get_parameter_by_id id w).0
  pub by_id_reads : (id : String) (w : W) → view (store.get_parameter_by_id id w).1 ≡ view w
  pub audit_reads :
      (namespace key : String) (limit offset : ℤ) (w : W)
      → view (store.query_audit namespace key limit offset w).1 ≡ view w
  pub versions_reads :
      (namespace key : String) (w : W)
      → view (store.list_parameter_versions namespace key w).1 ≡ view w

-- A row is inserted under an id that no row has: the ids are the table's primary key.
pub record HasPrimaryKey {W : Type 0} (store : Store W) (view : W → Db) : Type 0 where
  pub created :
      (p : Parameter) (w : W)
      → view (store.create_parameter p w).1 ≡ insert_parameter p (view w)
      → All (λ q. q.id ≢ p.id) (view w).parameters
