-- ===== src/Consensus/Stages.antt =====
-- The writes of `Evaluate`, each behind the ones before it.
use mathlib.Core.List
use mathlib.Core.List.{append_assoc, append-nil}
use truthmetal.Base.{String, ◌≡◌, refl, sym, ◌∙◌, List, [], ◌∷◌, ◌++◌, map, arith}
use truthmetal.Exec.{returns, Env, IsEnv}
use truthmetal.Exec.Triples.{Returns, Returns-bind}
use truthmetal.Model.{
  Time, Parameter, LedgerEvent, ParameterState, LedgerEventType, state_validating,
  state_consensus_pending, state_rejected,
}
use truthmetal.Model.States.{validating≢canonical, pending≢canonical, rejected≢canonical}
use truthmetal.Store.{Store}
use truthmetal.Store.Db.{Db, set_row, set_state, add_event}
use truthmetal.Store.Contract.{IsStore, Sets}
use truthmetal.Store.Writable.{IsWritable, effect}
use truthmetal.Consensus.{Parsers, append_event}
use truthmetal.Consensus.Trail.{Transition, transition, Lifecycle}
use truthmetal.Consensus.Rejection.{uuid-Returns, now-Returns}

rows_reset :
    (id : String) (s t : ParameterState) (m n : Time) (ps : List Parameter)
    → map (set_row id t n) (map (set_row id s m) ps) ≡ map (set_row id t n) ps
rows_reset id s t m n [] = refl
rows_reset id s t m n (p ∷ ps) = cc (row, rows_reset id s t m n ps)
  where
    row : set_row id t n (set_row id s m p) ≡ set_row id t n p
    row = ground arith

module _ {W : Type 0} (env : Env W) (store : Store W) (parsers : Parsers) {view : W → Db}
    (contract : IsStore store view) (clock : IsEnv env view) where
  module _ (p : Parameter) (before : Db) (writable : IsWritable store) where
    -- The update to a state returns.
    abbrev pub Takes : ParameterState → Type 0
    Takes state = (w : W) → (store.update_parameter_state p.id state w).0 ≡ returns tt

    pub to_validating : Takes state_validating
    to_validating w = writable.updates p.id _ w validating≢canonical

    pub to_pending : Takes state_consensus_pending
    to_pending w = writable.updates p.id _ w pending≢canonical

    pub to_rejected : Takes state_rejected
    to_rejected w = writable.updates p.id _ w rejected≢canonical

    pub update_first :
        (state : ParameterState)
        → Takes state
        → Returns view
            (λ d. d ≡ before)
            (store.update_parameter_state p.id state)
            (λ _. Lifecycle p.id before [] state)
    unfolding set_state
    update_first state takes = record {
      run = λ w h.
          let e = takes w in
          let (now, x) = effect (Sets p.id state) _ _ _ tt (contract.update p.id state w) e in
          (
            tt,
            e,
            record {
              updated = now;
              rows = rw (x, h);
              entries = [];
              ledger = rw (x, h) (sym (append-nil before.events));
              transitions = refl;
            },
          );
    }

    pub update_next :
        {trail : List Transition} {from : ParameterState} (state : ParameterState)
        → Takes state
        → Returns view
            (Lifecycle p.id before trail from)
            (store.update_parameter_state p.id state)
            (λ _. Lifecycle p.id before trail state)
    unfolding set_state
    update_next state takes = record {
      run = λ w h.
          let e = takes w in
          let (now, x) = effect (Sets p.id state) _ _ _ tt (contract.update p.id state w) e in
          (
            tt,
            e,
            record {
              updated = now;
              rows = rw (x, h.rows) (rows_reset p.id _ state h.updated now before.parameters);
              entries = h.entries;
              ledger = rw x h.ledger;
              transitions = h.transitions;
            },
          );
    }

    append_next :
        {trail : List Transition} {state : ParameterState} (e : LedgerEvent)
        → Returns view
            (Lifecycle p.id before trail state)
            (store.append_event e)
            (λ _. Lifecycle p.id before (trail ++ transition e ∷ []) state)
    unfolding add_event
    append_next v = record {
      run = λ w h.
          let e = writable.appends v w in
          let x = effect (λ b a. a ≡ add_event v b) _ _ _ tt (contract.append v w) e in
          (
            tt,
            e,
            record {
              updated = h.updated;
              rows = rw x h.rows;
              entries = h.entries ++ v ∷ [];
              ledger = rw (x, h.ledger) (append_assoc before.events h.entries (v ∷ []));
              transitions = List.map-append transition h.entries (v ∷ []) ∙ rw h.transitions;
            },
          );
    }

    pub append_event-Returns :
        {trail : List Transition} {state : ParameterState} (t : LedgerEventType)
        (from to : ParameterState) (actor reason : String)
        → Returns view
            (Lifecycle p.id before trail state)
            (append_event env store parsers p t from to actor reason)
            (λ _.
              Lifecycle p.id before
                (trail
                  ++ record {
                    parameter_id = p.id;
                    event_type = t;
                    from_state = from;
                    to_state = to;
                    reason = reason;
                  }
                    ∷ [])
                state)
    unfolding append_event
    append_event-Returns t from to actor reason =
        Returns-bind (uuid-Returns clock _)
          λ id. Returns-bind (now-Returns clock _) λ now. append_next _
