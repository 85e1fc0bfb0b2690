-- ===== src/Consensus/Footprint.antt =====
-- What `Evaluate` keeps of the store, on every outcome.
use truthmetal.Base.{String, ◌≡◌, ◌≢◌, refl, Option, none, some}
use truthmetal.Exec.{Env, IsEnv}
use truthmetal.Exec.Keeps.{
  IsPreorder, Keeps, Keeps-pure, Keeps-raise, Keeps-lift, Keeps-bind, Keeps-ignore,
}
use truthmetal.Model.{
  Parameter, ParameterState, LedgerEvent, LedgerEventType, state_validating,
  state_consensus_pending, state_canonical, state_rejected,
}
use truthmetal.Model.States.{validating≢canonical, pending≢canonical, rejected≢canonical}
use truthmetal.Store.{Store}
use truthmetal.Store.Db.{Db}
use truthmetal.Store.Kept.{kept_of_eq}
use truthmetal.Consensus.{
  Parsers, validate_value_type, append_event, conclude, run_consensus, evaluate,
}

-- The relation is kept by events, by updates of the version to other states, and by its promotion
-- if its value has its type.
pub record IsKeptBy {W : Type 0} (store : Store W) (parsers : Parsers) (view : W → Db)
    (R : Db → Db → Type 0) (p : Parameter) : Type 0 where
  pub order : IsPreorder R
  pub appends : (e : LedgerEvent) → Keeps R view (store.append_event e)
  pub updates :
      (state : ParameterState)
      → state ≢ state_canonical
      → Keeps R view (store.update_parameter_state p.id state)
  pub promotes :
      validate_value_type parsers p.value p.value_type ≡ none
      → Keeps R view (store.update_parameter_state p.id state_canonical)

ruleset rules = (Keeps-pure, Keeps-raise, Keeps-lift, Keeps-bind, Keeps-ignore)

module _ {W : Type 0} (env : Env W) (store : Store W) (parsers : Parsers) {view : W → Db}
    (clock : IsEnv env view) {R : Db → Db → Type 0} (p : Parameter)
    (kept : IsKeptBy store parsers view R p) where
  uuid-Keeps : Keeps R view env.new_uuid
  uuid-Keeps = record { at = λ w. kept_of_eq kept.order (clock.uuid_reads w) }

  now-Keeps : Keeps R view env.now
  now-Keeps = record { at = λ w. kept_of_eq kept.order (clock.now_reads w) }

  append_event-Keeps :
      (t : LedgerEventType) (from to : ParameterState) (actor reason : String)
      → Keeps R view (append_event env store parsers p t from to actor reason)
  unfolding append_event
  append_event-Keeps t from to actor reason =
      search (rules, kept.order, uuid-Keeps, now-Keeps, kept.appends)

  validated-Keeps : Keeps R view (store.update_parameter_state p.id state_validating)
  validated-Keeps = kept.updates _ validating≢canonical

  pending-Keeps : Keeps R view (store.update_parameter_state p.id state_consensus_pending)
  pending-Keeps = kept.updates _ pending≢canonical

  rejected-Keeps : Keeps R view (store.update_parameter_state p.id state_rejected)
  rejected-Keeps = kept.updates _ rejected≢canonical

  conclude-Keeps :
      (checked : Option String)
      → validate_value_type parsers p.value p.value_type ≡ checked
      → Keeps R view (conclude env store parsers p checked)
  unfolding conclude
  conclude-Keeps (some message) e = search (rules, kept.order, rejected-Keeps, append_event-Keeps)
  conclude-Keeps none e = Keeps-bind kept.order view _ _ pending-Keeps λ _.
      Keeps-bind kept.order view _ _ (append_event-Keeps _ _ _ _ _) λ _.
        Keeps-bind kept.order view _ _ (kept.promotes e) λ _.
          Keeps-bind kept.order view _ _ (append_event-Keeps _ _ _ _ _)
            λ _. Keeps-pure kept.order view _

  run_consensus-Keeps : Keeps R view (run_consensus env store parsers p)
  unfolding run_consensus
  run_consensus-Keeps =
      Keeps-bind kept.order view _ _ validated-Keeps λ _.
        Keeps-bind kept.order view _ _ (append_event-Keeps _ _ _ _ _) λ _. conclude-Keeps _ refl

  pub evaluate-Keeps : Keeps R view (evaluate env store parsers p)
  unfolding evaluate
  evaluate-Keeps = record { at = λ w. run_consensus-Keeps.at w }
