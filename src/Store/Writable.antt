-- ===== src/Store/Writable.antt =====
-- A store whose writes return, but for those that make a version canonical: the unique index
-- may refuse these.
use truthmetal.Base.{String, ◌≡◌, ◌≢◌, subst, sym}
use truthmetal.Exec.{Outcome, returns}
use truthmetal.Exec.Triples.{Returns}
use truthmetal.Model.{ParameterState, Parameter, LedgerEvent, state_canonical}
use truthmetal.Store.{Store}
use truthmetal.Store.Db.{Db, insert_parameter, add_event, NoCanonical}
use truthmetal.Store.Contract.{Wrote, Sets, IsStore}
use truthmetal.Store.Canonical.{
  OnlyCanonical, NoCanonical-insert, NoCanonical-set_state, NoCanonical-add_event,
  OnlyCanonical-insert, OnlyCanonical-add_event, NoCanonical-of_leaving,
}

pub record IsWritable {W : Type 0} (store : Store W) : Type 0 where
  pub creates : (p : Parameter) (w : W) → (store.create_parameter p w).0 ≡ returns tt
  pub appends : (e : LedgerEvent) (w : W) → (store.append_event e w).0 ≡ returns tt
  pub updates :
      (id : String) (state : ParameterState) (w : W)
      → state ≢ state_canonical
      → (store.update_parameter_state id state w).0 ≡ returns tt

-- The store takes every write: no statement fails.
pub record IsTaking {W : Type 0} (store : Store W) : Type 0 where
  pub creates : (p : Parameter) (w : W) → (store.create_parameter p w).0 ≡ returns tt
  pub updates :
      (id : String) (state : ParameterState) (w : W)
      → (store.update_parameter_state id state w).0 ≡ returns tt
  pub appends : (e : LedgerEvent) (w : W) → (store.append_event e w).0 ≡ returns tt

pub IsTaking-IsWritable : {W : Type 0} {store : Store W} → IsTaking store → IsWritable store
IsTaking-IsWritable taking = record {
  creates = taking.creates;
  appends = taking.appends;
  updates = λ id state w n. taking.updates id state w;
}

-- What a write that returned has done.
pub effect :
    {A : Type 0} (R : Db → Db → Type 0) (before : Db) (r : Outcome A) (after : Db) (a : A)
    → Wrote R before r after
    → r ≡ returns a
    → R before after
effect R before r after a h e = subst (λ x. Wrote R before x after) e h

module _ {W : Type 0} {store : Store W} {view : W → Db} (contract : IsStore store view)
    (writable : IsWritable store) (namespace key : String) where
  pub create-NoCanonical :
      (p : Parameter)
      → p.state ≢ state_canonical
      → Returns view
          (NoCanonical namespace key)
          (store.create_parameter p)
          (λ _. NoCanonical namespace key)
  create-NoCanonical p n = record {
    run = λ w h.
        let e = writable.creates p w in
        let x = effect (λ b a. a ≡ insert_parameter p b) _ _ _ tt (contract.create p w) e in
        (
          tt,
          e,
          subst (NoCanonical namespace key) (sym x)
              (NoCanonical-insert namespace key p (view w) n h),
        );
  }

  pub create-OnlyCanonical :
      (id : String) (p : Parameter)
      → p.state ≢ state_canonical
      → Returns view
          (OnlyCanonical namespace key id)
          (store.create_parameter p)
          (λ _. OnlyCanonical namespace key id)
  create-OnlyCanonical id p n = record {
    run = λ w h.
        let e = writable.creates p w in
        let x = effect (λ b a. a ≡ insert_parameter p b) _ _ _ tt (contract.create p w) e in
        (
          tt,
          e,
          subst (OnlyCanonical namespace key id) (sym x)
              (OnlyCanonical-insert namespace key id p (view w) n h),
        );
  }

  pub append-NoCanonical :
      (v : LedgerEvent)
      → Returns view
          (NoCanonical namespace key)
          (store.append_event v)
          (λ _. NoCanonical namespace key)
  append-NoCanonical v = record {
    run = λ w h.
        let e = writable.appends v w in
        let x = effect (λ b a. a ≡ add_event v b) _ _ _ tt (contract.append v w) e in
        (
          tt,
          e,
          subst (NoCanonical namespace key) (sym x)
              (NoCanonical-add_event namespace key v (view w) h),
        );
  }

  pub append-OnlyCanonical :
      (id : String) (v : LedgerEvent)
      → Returns view
          (OnlyCanonical namespace key id)
          (store.append_event v)
          (λ _. OnlyCanonical namespace key id)
  append-OnlyCanonical id v = record {
    run = λ w h.
        let e = writable.appends v w in
        let x = effect (λ b a. a ≡ add_event v b) _ _ _ tt (contract.append v w) e in
        (
          tt,
          e,
          subst (OnlyCanonical namespace key id) (sym x)
              (OnlyCanonical-add_event namespace key id v (view w) h),
        );
  }

  pub update-NoCanonical :
      (id : String) (state : ParameterState)
      → state ≢ state_canonical
      → Returns view
          (NoCanonical namespace key)
          (store.update_parameter_state id state)
          (λ _. NoCanonical namespace key)
  update-NoCanonical id state n = record {
    run = λ w h.
        let e = writable.updates id state w n in
        let x = effect (Sets id state) _ _ _ tt (contract.update id state w) e in
        (
          tt,
          e,
          subst (NoCanonical namespace key) (sym x.1)
              (NoCanonical-set_state namespace key id state x.0 (view w) n h),
        );
  }

  -- The update of the only canonical version to another state.
  pub update-leaves :
      (id : String) (state : ParameterState)
      → state ≢ state_canonical
      → Returns view
          (OnlyCanonical namespace key id)
          (store.update_parameter_state id state)
          (λ _. NoCanonical namespace key)
  update-leaves id state n = record {
    run = λ w h.
        let e = writable.updates id state w n in
        let x = effect (Sets id state) _ _ _ tt (contract.update id state w) e in
        (
          tt,
          e,
          subst (NoCanonical namespace key) (sym x.1)
              (NoCanonical-of_leaving namespace key id state x.0 (view w) n h),
        );
  }
