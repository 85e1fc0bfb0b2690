-- ===== src/Store/Kept.antt =====
-- Relations between the versions and events of before and after that the writes of a store keep,
-- on every outcome.
use truthmetal.Base.{String, ◌≡◌, ◌≢◌, sym, subst, inl, inr, All}
use truthmetal.Exec.{Outcome, returns, fails, panics}
use truthmetal.Exec.Keeps.{IsPreorder, Keeps}
use truthmetal.Model.{Time, ParameterState, Parameter, LedgerEvent}
use truthmetal.Store.{Store}
use truthmetal.Store.Db.{Db, insert_parameter, set_state, add_event}
use truthmetal.Store.Contract.{Wrote, Sets, IsStore, HasPrimaryKey}

module _ {R : Db → Db → Type 0} (order : IsPreorder R) where
  pub kept_of_eq : {d e : Db} → e ≡ d → R d e
  kept_of_eq {d} {e} h = subst (λ x. R d x) (sym h) (order.reflexive d)

  -- A write whose effect is in the relation is so on every outcome.
  kept_written :
      {A : Type 0} (E : Db → Db → Type 0) {before after : Db}
      → (E before after → R before after)
      → (r : Outcome A) → Wrote E before r after
      → R before after
  kept_written E f (returns a) h = f h
  kept_written E f (fails e) (inl h) = kept_of_eq h
  kept_written E f (fails e) (inr h) = f h
  kept_written E f panics h = absurd h

  of_effect : {d e f : Db} → R d f → e ≡ f → R d e
  of_effect {d} k h = subst (λ x. R d x) (sym h) k

  module _ {W : Type 0} {store : Store W} {view : W → Db} (contract : IsStore store view) where
    pub create-Keeps :
        (p : Parameter)
        → ((d : Db) → R d (insert_parameter p d))
        → Keeps R view (store.create_parameter p)
    create-Keeps p k = record {
      at = λ w.
          kept_written (λ d e. e ≡ insert_parameter p d) (of_effect (k (view w))) _
            (contract.create p w);
    }

    -- The same under a primary key.
    pub create_new-Keeps :
        HasPrimaryKey store view
        → (p : Parameter)
        → ((d : Db) → All (λ q. q.id ≢ p.id) d.parameters → R d (insert_parameter p d))
        → Keeps R view (store.create_parameter p)
    create_new-Keeps keyed p k = record {
      at = λ w.
          kept_written (λ d e. e ≡ insert_parameter p d)
            (λ h. of_effect (k (view w) (keyed.created p w h)) h) _ (contract.create p w);
    }

    pub update-Keeps :
        (id : String) (state : ParameterState)
        → ((now : Time) (d : Db) → R d (set_state id state now d))
        → Keeps R view (store.update_parameter_state id state)
    update-Keeps id state k = record {
      at = λ w.
          kept_written (Sets id state) (λ h. of_effect (k h.0 (view w)) h.1) _
            (contract.update id state w);
    }

    pub append-Keeps :
        (e : LedgerEvent) → ((d : Db) → R d (add_event e d)) → Keeps R view (store.append_event e)
    append-Keeps e k = record {
      at = λ w.
          kept_written (λ d d'. d' ≡ add_event e d) (of_effect (k (view w))) _
            (contract.append e w);
    }
