-- ===== src/Store/Evolution.antt =====
-- How the store may change: versions keep their facts, and the ledger only grows.
use truthmetal.Base.{String, ◌≡◌, refl, sym, subst, List, [], ◌∷◌, ◌++◌, map, arith}
use mathlib.Core.List.{append-nil, append_assoc}
use truthmetal.Exec.Keeps.{IsPreorder, Keeps}
use truthmetal.Model.{Time, ParameterState, Parameter, LedgerEvent}
use truthmetal.Store.{Store}
use truthmetal.Store.Db.{Db, insert_parameter, set_row, set_state, add_event}
use truthmetal.Store.Contract.{IsStore}
use truthmetal.Store.Kept.{create-Keeps, update-Keeps, append-Keeps}

-- All but the state and the time of the last update.
pub record SameFact (p q : Parameter) : Type 0 where
  pub id : p.id ≡ q.id
  pub key : p.key ≡ q.key
  pub value : p.value ≡ q.value
  pub value_type : p.value_type ≡ q.value_type
  pub namespace : p.namespace ≡ q.namespace
  pub source : p.source ≡ q.source
  pub source_ref : p.source_ref ≡ q.source_ref
  pub version : p.version ≡ q.version
  pub previous : p.previous_version_id ≡ q.previous_version_id
  pub metadata : p.metadata ≡ q.metadata
  pub created : p.created_at ≡ q.created_at

-- The rows of the first list come first in the second, with the same facts.
abbrev pub Grows : List Parameter → List Parameter → Type 0
Grows [] qs = Unit
Grows (p ∷ ps) [] = ⊥
Grows (p ∷ ps) (q ∷ qs) = SameFact p q × Grows ps qs

pub record Evolves (before after : Db) : Type 0 where
  pub rows : Grows before.parameters after.parameters
  pub appended : List LedgerEvent
  pub ledger : after.events ≡ before.events ++ appended

SameFact-refl : (p : Parameter) → SameFact p p
SameFact-refl p = ground arith

SameFact-trans : (p q r : Parameter) → SameFact p q → SameFact q r → SameFact p r
SameFact-trans p q r h k = ground arith

Grows-refl : (ps : List Parameter) → Grows ps ps
Grows-refl [] = tt
Grows-refl (p ∷ ps) = (SameFact-refl p, Grows-refl ps)

pub Grows-trans : (ps qs rs : List Parameter) → Grows ps qs → Grows qs rs → Grows ps rs
Grows-trans [] qs rs h k = tt
Grows-trans (p ∷ ps) [] rs h k = absurd h
Grows-trans (p ∷ ps) (q ∷ qs) [] h k = absurd k
Grows-trans (p ∷ ps) (q ∷ qs) (r ∷ rs) (s, h) (t, k) =
    (SameFact-trans p q r s t, Grows-trans ps qs rs h k)

Grows-append : (ps qs : List Parameter) → Grows ps (ps ++ qs)
Grows-append [] qs = tt
Grows-append (p ∷ ps) qs = (SameFact-refl p, Grows-append ps qs)

pub Grows-set_row :
    (id : String) (state : ParameterState) (now : Time) (ps : List Parameter)
    → Grows ps (map (set_row id state now) ps)
Grows-set_row id state now [] = tt
Grows-set_row id state now (p ∷ ps) = (ground arith, Grows-set_row id state now ps)

-- A version is added, a row set, and another version added.
pub Grows-added :
    (id : String) (state : ParameterState) (now : Time) (a b : Parameter) (ps : List Parameter)
    → Grows (ps ++ a ∷ b ∷ []) (map (set_row id state now) (ps ++ a ∷ []) ++ b ∷ [])
Grows-added id state now a b [] = ((Grows-set_row id state now (a ∷ [])).0, (SameFact-refl b, tt))
Grows-added id state now a b (p ∷ ps) =
    ((Grows-set_row id state now (p ∷ [])).0, Grows-added id state now a b ps)

Evolves-trans : (d e f : Db) → Evolves d e → Evolves e f → Evolves d f
Evolves-trans d e f h k = record {
  rows = Grows-trans _ _ _ h.rows k.rows;
  appended = h.appended ++ k.appended;
  ledger = rw (k.ledger, h.ledger) (append_assoc d.events h.appended k.appended);
}

pub Evolves-refl : (d : Db) → Evolves d d
Evolves-refl d = record {
  rows = Grows-refl d.parameters;
  appended = [];
  ledger = sym (append-nil d.events);
}

pub Evolves-preorder : IsPreorder Evolves
Evolves-preorder = record { reflexive = Evolves-refl; transitive = Evolves-trans }

pub Evolves-of_eq : {d e : Db} → e ≡ d → Evolves d e
Evolves-of_eq {d} {e} h = subst (λ x. Evolves d x) (sym h) (Evolves-refl d)

Evolves-insert : (p : Parameter) (d : Db) → Evolves d (insert_parameter p d)
unfolding insert_parameter
Evolves-insert p d = record {
  rows = Grows-append d.parameters (p ∷ []);
  appended = [];
  ledger = sym (append-nil d.events);
}

Evolves-set_state :
    (id : String) (state : ParameterState) (now : Time) (d : Db)
    → Evolves d (set_state id state now d)
unfolding set_state
Evolves-set_state id state now d = record {
  rows = Grows-set_row id state now d.parameters;
  appended = [];
  ledger = sym (append-nil d.events);
}

Evolves-add_event : (e : LedgerEvent) (d : Db) → Evolves d (add_event e d)
unfolding add_event
Evolves-add_event e d = record { rows = Grows-refl d.parameters; appended = e ∷ []; ledger = refl }

module _ {W : Type 0} {store : Store W} {view : W → Db} (contract : IsStore store view) where
  pub create-Evolves : (p : Parameter) → Keeps Evolves view (store.create_parameter p)
  create-Evolves p = create-Keeps Evolves-preorder contract p (Evolves-insert p)

  pub update-Evolves :
      (id : String) (state : ParameterState)
      → Keeps Evolves view (store.update_parameter_state id state)
  update-Evolves id state =
      update-Keeps Evolves-preorder contract id state (Evolves-set_state id state)

  pub append-Evolves : (e : LedgerEvent) → Keeps Evolves view (store.append_event e)
  append-Evolves e = append-Keeps Evolves-preorder contract e (Evolves-add_event e)
