-- ===== src/Consensus/Telling.antt =====
-- `Evaluate` leaves the ledger in agreement with the versions, on every outcome.
use truthmetal.Base.{String, Option, none, some}
use truthmetal.Exec.{Env, IsEnv}
use truthmetal.Exec.Keeps.{Keeps}
use truthmetal.Exec.Triples.{Returns, Returns-bind, Returns-ignore}
use truthmetal.Exec.Settles.{
  Settles, Settles-bind, Settles-pure, Settles-raise, Settles-Returns, Settles-Keeps,
}
use truthmetal.Model.{Parameter, ParameterState, LedgerEventType}
use truthmetal.Model.States.{validating≢canonical, pending≢canonical, rejected≢canonical}
use truthmetal.Store.{Store}
use truthmetal.Store.Db.{Db}
use truthmetal.Store.Contract.{IsStore}
use truthmetal.Store.Replay.{Told, Pending}
use truthmetal.Store.Telling.{IsAnswering, update-Pending, append-Told, promote-Pending}
use truthmetal.Consensus.{Parsers, append_event, conclude, run_consensus, evaluate}
use truthmetal.Consensus.Rejection.{uuid-Returns, now-Returns}

module _ {W : Type 0} (env : Env W) (store : Store W) (parsers : Parsers) {view : W → Db}
    (contract : IsStore store view) (clock : IsEnv env view) (answering : IsAnswering store view)
    (p : Parameter) where
  tells :
      (t : LedgerEventType) (from to : ParameterState) (actor reason : String)
      → Returns view
          (Pending p.id to)
          (append_event env store parsers p t from to actor reason)
          (λ _. Told)
  unfolding append_event
  tells t from to actor reason =
      Returns-bind (uuid-Returns clock _)
        λ id. Returns-bind (now-Returns clock _) λ now. append-Told contract answering _

  conclude-Told :
      (checked : Option String)
      → Settles view Told Told (conclude env store parsers p checked) (λ _. Told)
  unfolding conclude
  conclude-Told (some message) =
      Settles-bind
        (Settles-Returns (
          Returns-ignore (update-Pending contract answering p.id _ rejected≢canonical)
            (λ _ _ h. h)))
        λ _.
          Settles-bind (Settles-Returns (Returns-ignore (tells _ _ _ _ _) (λ _ _ h. h)))
            λ _. Settles-raise _
  conclude-Told none =
      Settles-bind (Settles-Returns (update-Pending contract answering p.id _ pending≢canonical))
        λ _. Settles-bind (Settles-Returns (tells _ _ _ _ _)) λ _.
          Settles-bind (promote-Pending contract answering p.id)
            λ _. Settles-bind (Settles-Returns (tells _ _ _ _ _)) λ _. Settles-pure _

  run_consensus-Told : Settles view Told Told (run_consensus env store parsers p) (λ _. Told)
  unfolding run_consensus
  run_consensus-Told =
      Settles-bind (Settles-Returns (update-Pending contract answering p.id _ validating≢canonical))
        λ _. Settles-bind (Settles-Returns (tells _ _ _ _ _)) λ _. conclude-Told _

  pub evaluate-Told : Keeps (λ d e. Told d → Told e) view (evaluate env store parsers p)
  unfolding evaluate
  evaluate-Told = record { at = (Settles-Keeps run_consensus-Told).at }
