-- ===== src/Store/Telling.antt =====
-- A store whose answers tell what was written, and what its writes do to versions and ledger.
use truthmetal.Base.{String, ◌≡◌, ◌≢◌, refl, sym, subst}
use truthmetal.Exec.{Outcome, Error, returns, fails, panics}
use truthmetal.Exec.Triples.{Returns}
use truthmetal.Exec.Settles.{Settles, SettledIn}
use truthmetal.Model.{Parameter, ParameterState, LedgerEvent, state_canonical}
use truthmetal.Store.{Store}
use truthmetal.Store.Db.{Db, insert_parameter, add_event}
use truthmetal.Store.Contract.{Wrote, Sets, IsStore, HasPrimaryKey}
use truthmetal.Store.Writable.{effect}
use truthmetal.Store.Replay.{Told, Pending, set_state-Pending, insert-Pending, add_event-Told}

-- The store takes events and updates to other states than CANONICAL. An insertion and a promotion
-- may fail, by the primary key and the unique index, and have no effect where they fail.
pub record IsAnswering {W : Type 0} (store : Store W) (view : W → Db) : Type 0 where
  pub appends : (e : LedgerEvent) (w : W) → (store.append_event e w).0 ≡ returns tt
  pub updates :
      (id : String) (state : ParameterState) (w : W)
      → state ≢ state_canonical
      → (store.update_parameter_state id state w).0 ≡ returns tt
  pub created :
      (p : Parameter) (w : W) {e : Error}
      → (store.create_parameter p w).0 ≡ fails e
      → view (store.create_parameter p w).1 ≡ view w
  pub promoted :
      (id : String) (w : W) {e : Error}
      → (store.update_parameter_state id state_canonical w).0 ≡ fails e
      → view (store.update_parameter_state id state_canonical w).1 ≡ view w

-- A write that may fail, without effect.
settled :
    {A : Type 0} (E : Db → Db → Type 0) (Q : A → Db → Type 0) (V : Db → Type 0) (before : Db)
    (o : Outcome A) (after : Db)
    → Wrote E before o after
    → ((e : Error) → o ≡ fails e → after ≡ before)
    → ((a : A) → E before after → Q a after)
    → V before
    → SettledIn Q V o after
settled E Q V before (returns a) after h unchanged k v = k a h
settled E Q V before (fails e) after h unchanged k v = subst V (sym (unchanged e refl)) v
settled E Q V before panics after h unchanged k v = absurd h

module _ {W : Type 0} {store : Store W} {view : W → Db} (contract : IsStore store view)
    (answering : IsAnswering store view) where
  pub update-Pending :
      (id : String) (state : ParameterState)
      → state ≢ state_canonical
      → Returns view Told (store.update_parameter_state id state) (λ _. Pending id state)
  update-Pending id state n = record {
    run = λ w h.
        let e = answering.updates id state w n in
        let x = effect (Sets id state) _ _ _ tt (contract.update id state w) e in
        (tt, e, subst (Pending id state) (sym x.1) (set_state-Pending id state x.0 (view w) h));
  }

  pub append-Told :
      (v : LedgerEvent)
      → Returns view (Pending v.parameter_id v.to_state) (store.append_event v) (λ _. Told)
  append-Told v = record {
    run = λ w h.
        let e = answering.appends v w in
        let x = effect (λ b a. a ≡ add_event v b) _ _ _ tt (contract.append v w) e in
        (tt, e, subst Told (sym x) (add_event-Told v (view w) h));
  }

  pub promote-Pending :
      (id : String)
      → Settles view Told Told
          (store.update_parameter_state id state_canonical)
          (λ _. Pending id state_canonical)
  promote-Pending id = record {
    at = λ w h.
        settled (Sets id state_canonical) _ _ (view w) _ _ (contract.update id state_canonical w)
          (λ e. answering.promoted id w)
          (λ _ x.
            subst (Pending id state_canonical) (sym x.1)
              (set_state-Pending id state_canonical x.0 (view w) h))
          h;
  }

  pub create-Pending :
      HasPrimaryKey store view
      → (p : Parameter)
      → Settles view Told Told (store.create_parameter p) (λ _. Pending p.id p.state)
  create-Pending keyed p = record {
    at = λ w h.
        settled (λ b a. a ≡ insert_parameter p b) _ _ (view w) _ _ (contract.create p w)
          (λ e. answering.created p w)
          (λ _ x.
            subst (Pending p.id p.state) (sym x)
              (insert-Pending p (view w) (keyed.created p w x) h))
          h;
  }
