-- ===== src/Ledger/Threads/Twins.antt =====
-- Two calls of `Submit` for one key that both look the canonical version up before either creates
-- its own.
use truthmetal.Base.{String, List, [], ◌∷◌, ◌++◌, ok}
use truthmetal.Exec.{Env, IsEnv}
use truthmetal.Model.{Time, Parameter, SubmitRequest}
use truthmetal.Store.{Store}
use truthmetal.Store.Db.{Db}
use truthmetal.Store.Contract.{IsStore}
use truthmetal.Store.Evolution.{Grows}
use truthmetal.Store.Writable.{IsWritable}
use truthmetal.Cache.{Cache, IsApart}
use truthmetal.Consensus.{Parsers}
use truthmetal.Ledger.{Service, new_service, create_version}
use truthmetal.Ledger.Proposal.{successor}
use truthmetal.Ledger.Threads.{Turn, resume}

-- Behind the rows of before stand a successor of `prev` for each request, and both keep their facts.
pub record Twins (req_a req_b : SubmitRequest) (prev : Parameter) (before after : Db) : Type 0 where
  pub id_a : String
  pub id_b : String
  pub created_a : Time
  pub created_b : Time
  pub rows :
      Grows
        (before.parameters
          ++ successor req_a prev id_a created_a ∷ successor req_b prev id_b created_b ∷ [])
        after.parameters

-- Both look up, then both create.
abbrev pub crossed : List Turn → List Turn
crossed ts = resume 0 ∷ resume 1 ∷ resume 0 ∷ resume 1 ∷ ts

module _ {W Doc : Type 0} (store : Store W) (cache : Cache W Doc) (env : Env W) (parsers : Parsers)
    {view : W → Db} (contract : IsStore store view) (clock : IsEnv env view)
    (apart : IsApart cache.client view) (writable : IsWritable store) where
  abbrev svc : Service W Doc
  svc = new_service store cache env parsers

  module _ (req_a req_b : SubmitRequest) (prev : Parameter) where
    abbrev pub looked_up : W → W
    looked_up w = (store.get_parameter req_a.namespace req_a.key w).1

    abbrev both_looked_up : W → W
    both_looked_up w = (store.get_parameter req_b.namespace req_b.key (looked_up w)).1

    -- Behind the first creation.
    abbrev made : W → W
    made w = (create_version svc req_a (ok prev) (both_looked_up w)).1

    -- The rows with a successor for each request.
    abbrev pair : List Parameter → String → Time → String → Time → List Parameter
    pair ps id_a at_a id_b at_b =
        ps ++ successor req_a prev id_a at_a ∷ successor req_b prev id_b at_b ∷ []
