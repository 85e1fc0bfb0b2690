-- ===== src/Ledger/Immutability.antt =====
-- Requests to the service, on every outcome, leave the facts and the ledger of before.
use truthmetal.Base.{List}
use truthmetal.Exec.{Env, IsEnv}
use truthmetal.Exec.Keeps.{Keeps}
use truthmetal.Model.{Parameter, state_canonical, state_revoked}
use truthmetal.Store.{Store}
use truthmetal.Store.Db.{Db}
use truthmetal.Store.Contract.{IsStore}
use truthmetal.Store.Evolution.{
  Evolves, Evolves-preorder, create-Evolves, update-Evolves, append-Evolves,
}
use truthmetal.Cache.{Cache, IsApart}
use truthmetal.Consensus.{Parsers, evaluate}
use truthmetal.Consensus.Footprint.{evaluate-Keeps}
use truthmetal.Ledger.{Process, new_service}
use truthmetal.Ledger.Requests.{Request, run}
use truthmetal.Ledger.Footprint.{IsKept}
use truthmetal.Ledger.Footprint.Runs.{IsServed, kept-IsServed, run-Keeps}
use truthmetal.Ledger.Threads.{System, Turn, turns}
use truthmetal.Ledger.Threads.Kept.{turns-Keeps}

module _ {W Doc : Type 0} (store : Store W) (cache : Cache W Doc) (env : Env W) (parsers : Parsers)
    {view : W → Db} (contract : IsStore store view) (clock : IsEnv env view)
    (apart : IsApart cache.client view) where
  Evolves-IsKept : IsKept store view Evolves
  Evolves-IsKept = record {
    order = Evolves-preorder;
    appends = append-Evolves contract;
    revokes = λ id. update-Evolves contract id state_revoked;
  }

  module _ (p : Parameter) where
    evaluate-Evolves : Keeps Evolves view (evaluate env store parsers p)
    evaluate-Evolves = evaluate-Keeps env store parsers clock p (record {
      order = Evolves-preorder;
      appends = append-Evolves contract;
      updates = λ state n. update-Evolves contract p.id state;
      promotes = λ passed. update-Evolves contract p.id state_canonical;
    })

  Evolves-IsServed : IsServed (new_service store cache env parsers) view Evolves
  Evolves-IsServed =
      kept-IsServed (new_service store cache env parsers) contract clock apart Evolves-IsKept
        (create-Evolves contract) evaluate-Evolves

  -- Without overlaps, for a sequence of requests.
  run_immutable :
      (s : Process W) (requests : List Request)
      → Evolves (view s.world) (view (run (new_service store cache env parsers) s requests).world)
  run_immutable =
      run-Keeps (new_service store cache env parsers) contract clock apart Evolves-IsServed

  -- If the store keeps its contract, and Redis and the clock are apart from it, then however many
  -- calls of `Submit` overlap, and wherever between their steps other requests are served, each
  -- version that the store held is still there behind it all, at its place, with every field but
  -- the state and the time of update, and the ledger of before is a prefix of the ledger.
  pub turns_immutable :
      (sys : System W) (ts : List Turn)
      → Evolves
          (view sys.process.world)
          (view (turns (new_service store cache env parsers) sys ts).process.world)
  turns_immutable =
      turns-Keeps (new_service store cache env parsers) contract clock apart Evolves-IsServed
