-- ===== src/Consensus/Refusal.antt =====
-- What `Evaluate` does where the unique index refuses the promotion.
use truthmetal.Base.{
  String, ◌≡◌, ◌≢◌, refl, sym, ap, subst, ◌∙◌, inl, inr, true, none, some, List, [], ◌∷◌, map,
  arith,
}
use truthmetal.Exec.{Error, returns, fails, Env, IsEnv}
use truthmetal.Exec.Triples.{FailsWith, FailsWith-first, FailsWith-bind}
use truthmetal.Model.{
  Time, Parameter, ParameterState, state_validating, state_consensus_pending, state_canonical,
  state_rejected,
}
use truthmetal.Store.{Store}
use truthmetal.Store.Db.{Db, Among, is_canonical_of, set_row}
use truthmetal.Store.Contract.{IsStore}
use truthmetal.Store.Writable.{IsWritable}
use truthmetal.Consensus.{
  Parsers, validate_value_type, conclude, run_consensus, evaluate, rejected_beside,
}
use truthmetal.Consensus.Trail.{Lifecycle, reached_of}
use truthmetal.Consensus.Stages.{
  update_first, update_next, append_event-Returns, to_validating, to_pending,
}

-- Another version of the key is canonical.
pub record HasRival (p : Parameter) (db : Db) : Type 0 where
  pub rival : Parameter
  pub held : Among rival db.parameters
  pub other_id : rival.id ≢ p.id
  pub canonical : is_canonical_of p.namespace p.key rival ≡ true

set_among :
    (id : String) (state : ParameterState) (now : Time) (q : Parameter) (ps : List Parameter)
    → q.id ≢ id
    → Among q ps
    → Among q (map (set_row id state now) ps)
set_among id state now q [] n h = h
set_among id state now q (r ∷ rs) n (inl e) = inl (e ∙ unset (λ same. n (ap (λ x. x.id) e ∙ same)))
  where
    unset : r.id ≢ id → r ≡ set_row id state now r
    unset m = ground arith
set_among id state now q (r ∷ rs) n (inr h) = inr (set_among id state now q rs n h)

rival_stays :
    (p : Parameter) (before after : Db) (state : ParameterState) (now : Time)
    → after.parameters ≡ map (set_row p.id state now) before.parameters
    → HasRival p before
    → HasRival p after
rival_stays p before after state now e h = record {
  rival = h.rival;
  held = subst (Among h.rival) (sym e) (set_among p.id state now h.rival _ h.other_id h.held);
  other_id = h.other_id;
  canonical = h.canonical;
}

module _ {W : Type 0} (env : Env W) (store : Store W) (parsers : Parsers) {view : W → Db}
    (contract : IsStore store view) (clock : IsEnv env view) where
  module _ (p : Parameter) (before : Db) (writable : IsWritable store) where
    -- The promotion is refused behind the second transition.
    run_consensus_refused :
        (x : Error)
        → validate_value_type parsers p.value p.value_type ≡ none
        → FailsWith view
            (Lifecycle p.id before (reached_of p.id) state_consensus_pending)
            (store.update_parameter_state p.id state_canonical)
            x
            (Lifecycle p.id before (reached_of p.id) state_consensus_pending)
        → FailsWith view
            (λ d. d ≡ before)
            (run_consensus env store parsers p)
            x
            (Lifecycle p.id before (reached_of p.id) state_consensus_pending)
    unfolding run_consensus conclude
    run_consensus_refused x valid refused =
        FailsWith-bind
          (update_first env store parsers contract clock p before writable state_validating
            (to_validating env store parsers contract clock p before writable))
          λ _.
            FailsWith-bind
              (append_event-Returns env store parsers contract clock p before writable _ _ _ _ _)
              λ _. rw valid (
                FailsWith-bind
                  (update_next env store parsers contract clock p before writable
                    state_consensus_pending
                    (to_pending env store parsers contract clock p before writable))
                  λ _.
                    FailsWith-bind
                      (append_event-Returns env store parsers contract clock p before writable _ _ _
                        _ _)
                      λ _. FailsWith-first _ refused)

  -- Suppose the store keeps its contract and takes every write but promotions, the clock and the
  -- ids do not fail, and the unique index refuses a promotion while another version of the key is
  -- canonical. If the value of a version has its type and another version of its key is canonical,
  -- `Evaluate` returns REJECTED with the error of the store, yet it leaves the version in the state
  -- CONSENSUS_PENDING and every other version as it was, and appends the transitions to VALIDATING
  -- and CONSENSUS_PENDING to the ledger, and none to REJECTED.
  pub evaluate_refused :
      (writable : IsWritable store) (p : Parameter) (x : Error)
      → ((v : W)
          → HasRival p (view v)
          → ((store.update_parameter_state p.id state_canonical v).0 ≡ fails x)
            × (view (store.update_parameter_state p.id state_canonical v).1 ≡ view v))
      → (w : W) → validate_value_type parsers p.value p.value_type ≡ none
      → HasRival p (view w)
      → ((evaluate env store parsers p w).0 ≡ returns (state_rejected, some x))
        × Lifecycle p.id
            (view w)
            (reached_of p.id)
            state_consensus_pending
            (view (evaluate env store parsers p w).1)
  unfolding evaluate
  evaluate_refused writable p x indexed w valid rival =
      let (e, h) =
        (run_consensus_refused p (view w) writable x valid (record {
          run = λ v h.
              let (e, same) = indexed v (rival_stays p (view w) (view v) _ _ h.rows rival) in
              (
                e,
                subst (Lifecycle p.id (view w) (reached_of p.id) state_consensus_pending) (sym same)
                    h,
              );
        })).run
          w refl in
      (ap rejected_beside e, h)
