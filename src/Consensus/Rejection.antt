-- ===== src/Consensus/Rejection.antt =====
-- `Evaluate` of a value that does not have its type.
use truthmetal.Base.{String, ◌≡◌, refl, ap, subst, sym, some}
use truthmetal.Exec.{other, Env, IsEnv}
use truthmetal.Exec.Triples.{Returns, FailsWith, Returns-bind, FailsWith-bind, Returns-ignore}
use truthmetal.Model.{Parameter, ParameterState, LedgerEventType, state_rejected, state_validating}
use truthmetal.Model.States.{rejected≢canonical, validating≢canonical}
use truthmetal.Store.{Store}
use truthmetal.Store.Db.{Db, NoCanonical}
use truthmetal.Store.Contract.{IsStore}
use truthmetal.Store.Writable.{IsWritable, append-NoCanonical, update-NoCanonical}
use truthmetal.Consensus.{
  Parsers, validate_value_type, append_event, conclude, run_consensus, evaluate, rejected_beside,
}

-- The clock and the ids are there from any view on, and leave it.
module _ {W D : Type 0} {env : Env W} {view : W → D} (clock : IsEnv env view) (P : D → Type 0) where
  pub uuid-Returns : Returns view P env.new_uuid (λ _. P)
  uuid-Returns = record {
    run = λ w h. let (id, e) = clock.uuid w in (id, e, subst P (sym (clock.uuid_reads w)) h);
  }

  pub now-Returns : Returns view P env.now (λ _. P)
  now-Returns = record {
    run = λ w h. let (t, e) = clock.now w in (t, e, subst P (sym (clock.now_reads w)) h);
  }

module _ {W : Type 0} (env : Env W) (store : Store W) (parsers : Parsers) {view : W → Db}
    (contract : IsStore store view) (clock : IsEnv env view) (writable : IsWritable store)
    (namespace key : String) where
  append_event-NoCanonical :
      (p : Parameter) (t : LedgerEventType) (from to : ParameterState) (actor reason : String)
      → Returns view
          (NoCanonical namespace key)
          (append_event env store parsers p t from to actor reason)
          (λ _. NoCanonical namespace key)
  unfolding append_event
  append_event-NoCanonical p t from to actor reason =
      Returns-bind (uuid-Returns clock (NoCanonical namespace key)) λ id.
        Returns-bind (now-Returns clock (NoCanonical namespace key))
          λ now. append-NoCanonical contract writable namespace key _

  conclude_rejection :
      (p : Parameter) (message : String)
      → FailsWith view
          (NoCanonical namespace key)
          (conclude env store parsers p (some message))
          (other message)
          (NoCanonical namespace key)
  unfolding conclude
  conclude_rejection p message =
      FailsWith-bind
        (Returns-ignore
          (update-NoCanonical contract writable namespace key p.id state_rejected
            rejected≢canonical)
          (λ _ _ h. h))
        λ _.
          FailsWith-bind (Returns-ignore (append_event-NoCanonical p _ _ _ _ _) (λ _ _ h. h))
            λ _. record { run = λ w h. (refl, h) }

  run_consensus_rejection :
      (p : Parameter) (message : String)
      → validate_value_type parsers p.value p.value_type ≡ some message
      → FailsWith view
          (NoCanonical namespace key)
          (run_consensus env store parsers p)
          (other message)
          (NoCanonical namespace key)
  unfolding run_consensus
  run_consensus_rejection p message invalid =
      FailsWith-bind
        (update-NoCanonical contract writable namespace key p.id state_validating
          validating≢canonical)
        λ _.
          FailsWith-bind (append_event-NoCanonical p _ _ _ _ _)
            λ _. rw invalid (conclude_rejection p message)

  -- The verdict on a value that does not have its type, where the key has no canonical version.
  pub evaluate_rejection :
      (p : Parameter) (message : String)
      → validate_value_type parsers p.value p.value_type ≡ some message
      → Returns view (NoCanonical namespace key) (evaluate env store parsers p) (λ verdict d.
        (verdict ≡ (state_rejected, some (other message))) × NoCanonical namespace key d)
  unfolding evaluate
  evaluate_rejection p message invalid = record {
    run = λ w h.
        let (e, n) = (run_consensus_rejection p message invalid).run w h in
        ((state_rejected, some (other message)), ap rejected_beside e, (refl, n));
  }
