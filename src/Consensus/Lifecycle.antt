-- ===== src/Consensus/Lifecycle.antt =====
-- What `Evaluate` does to the version and to the ledger, where the store takes its writes.
use truthmetal.Base.{String, ◌≡◌, refl, ap, ◌∙◌, Option, none, some}
use truthmetal.Exec.{other, returns, Env, IsEnv}
use truthmetal.Exec.Triples.{Returns, FailsWith, Returns-bind, FailsWith-bind, Returns-ignore}
use truthmetal.Model.{
  Parameter, state_validating, state_consensus_pending, state_canonical, state_rejected,
}
use truthmetal.Store.{Store}
use truthmetal.Store.Db.{Db}
use truthmetal.Store.Contract.{IsStore}
use truthmetal.Store.Writable.{IsTaking, IsWritable, IsTaking-IsWritable}
use truthmetal.Consensus.{
  Parsers, validate_value_type, conclude, run_consensus, evaluate, rejected_beside,
}
use truthmetal.Consensus.Trail.{Lifecycle, verdict_of, trail_of}
use truthmetal.Consensus.Stages.{
  Takes, update_first, update_next, append_event-Returns, to_validating, to_pending, to_rejected,
}

module _ {W : Type 0} (env : Env W) (store : Store W) (parsers : Parsers) {view : W → Db}
    (contract : IsStore store view) (clock : IsEnv env view) where
  module _ (p : Parameter) (before : Db) (writable : IsWritable store) where
    run_consensus_accepted :
        Takes env store parsers contract clock p before writable state_canonical
        → validate_value_type parsers p.value p.value_type ≡ none
        → Returns view
            (λ d. d ≡ before)
            (run_consensus env store parsers p)
            (λ state d.
              (state ≡ state_canonical)
              × Lifecycle p.id before (trail_of p.id none) state_canonical d)
    unfolding run_consensus conclude
    run_consensus_accepted promoted valid =
        Returns-bind
          (update_first env store parsers contract clock p before writable state_validating
            (to_validating env store parsers contract clock p before writable))
          λ _.
            Returns-bind
              (append_event-Returns env store parsers contract clock p before writable _ _ _ _ _)
              λ _. rw valid (
                Returns-bind
                  (update_next env store parsers contract clock p before writable
                    state_consensus_pending
                    (to_pending env store parsers contract clock p before writable))
                  λ _.
                    Returns-bind
                      (append_event-Returns env store parsers contract clock p before writable _ _ _
                        _ _)
                      λ _.
                        Returns-bind
                          (update_next env store parsers contract clock p before writable
                            state_canonical promoted)
                          λ _.
                            Returns-bind
                              (append_event-Returns env store parsers contract clock p before
                                writable _ _ _ _ _)
                              λ _. record { run = λ w h. (_, refl, (refl, h)) })

    run_consensus_rejected :
        (message : String)
        → validate_value_type parsers p.value p.value_type ≡ some message
        → FailsWith view
            (λ d. d ≡ before)
            (run_consensus env store parsers p)
            (other message)
            (Lifecycle p.id before (trail_of p.id (some message)) state_rejected)
    unfolding run_consensus conclude
    run_consensus_rejected message invalid =
        FailsWith-bind
          (update_first env store parsers contract clock p before writable state_validating
            (to_validating env store parsers contract clock p before writable))
          λ _.
            FailsWith-bind
              (append_event-Returns env store parsers contract clock p before writable _ _ _ _ _)
              λ _. rw invalid (
                FailsWith-bind
                  (Returns-ignore
                    (update_next env store parsers contract clock p before writable state_rejected
                      (to_rejected env store parsers contract clock p before writable))
                    (λ _ _ h. h))
                  λ _.
                    FailsWith-bind
                      (Returns-ignore
                        (append_event-Returns env store parsers contract clock p before writable _ _
                          _ _ _)
                        (λ _ _ h. h))
                      λ _. record { run = λ w h. (refl, h) })

  -- If the store keeps its contract and takes every write, and the clock and the ids do not
  -- fail, `Evaluate` gives the verdict that `validateValueType` asks for, leaves the version in
  -- the state of this verdict and every other version as it was, and appends exactly the
  -- transitions from SUBMITTED to this state to the ledger: by VALIDATING and CONSENSUS_PENDING
  -- to CANONICAL, or by VALIDATING to REJECTED with the reason.
  pub evaluate-Lifecycle :
      (taking : IsTaking store) (p : Parameter) (w : W) (checked : Option String)
      → validate_value_type parsers p.value p.value_type ≡ checked
      → ((evaluate env store parsers p w).0 ≡ returns (verdict_of checked))
        × Lifecycle p.id
            (view w)
            (trail_of p.id checked)
            (verdict_of checked).0
            (view (evaluate env store parsers p w).1)
  unfolding evaluate
  evaluate-Lifecycle taking p w none valid =
      let (state, e, (q, h)) =
        (run_consensus_accepted p (view w) (IsTaking-IsWritable taking) (taking.updates p.id _)
            valid).run
          w refl in
      (ap rejected_beside (e ∙ ap returns q), h)
  evaluate-Lifecycle taking p w (some message) invalid =
      let (e, h) =
        (run_consensus_rejected p (view w) (IsTaking-IsWritable taking) message invalid).run w
          refl in
      (ap rejected_beside e, h)
