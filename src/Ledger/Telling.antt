-- ===== src/Ledger/Telling.antt =====
-- The ledger tells the state of each version behind requests that do not overlap.
use truthmetal.Base.{String, sym, subst, Result, List}
use truthmetal.Exec.{Error, Env, IsEnv, ignore}
use truthmetal.Exec.Keeps.{Same-preorder}
use truthmetal.Exec.Triples.{
  Returns, Returns-bind, Returns-ignore, Returns-if, Returns-imp, Returns-pure,
}
use truthmetal.Exec.Settles.{
  Settles, Settles-bind, Settles-pure, Settles-Returns, Settles-Same, Settles-Keeps,
}
use truthmetal.Model.{Time, Parameter, SubmitRequest, state_revoked}
use truthmetal.Model.States.{revoked≢canonical}
use truthmetal.Store.{Store}
use truthmetal.Store.Db.{Db}
use truthmetal.Store.Contract.{IsStore, HasPrimaryKey}
use truthmetal.Store.Typed.{Upholds, Upholds-preorder}
use truthmetal.Store.Replay.{Told, Pending}
use truthmetal.Store.Telling.{IsAnswering, update-Pending, append-Told, create-Pending}
use truthmetal.Cache.{Cache, IsApart, invalidate_canonical}
use truthmetal.Consensus.{Parsers}
use truthmetal.Consensus.Rejection.{uuid-Returns, now-Returns}
use truthmetal.Consensus.Telling.{evaluate-Told}
use truthmetal.Ledger.{
  Process, Service, new_service, submitted_version, record_submission, append_superseded, supersede,
  create_version, append_revoked, revoke,
}
use truthmetal.Ledger.LostValue.{dropped_answer}
use truthmetal.Ledger.Reads.{next_version-Keeps, lookup-Keeps}
use truthmetal.Ledger.Footprint.Runs.{IsServed, run-Keeps}
use truthmetal.Ledger.Requests.{Request, run}

module _ {W Doc : Type 0} (store : Store W) (cache : Cache W Doc) (env : Env W) (parsers : Parsers)
    {view : W → Db} (contract : IsStore store view) (clock : IsEnv env view)
    (apart : IsApart cache.client view) (keyed : HasPrimaryKey store view)
    (answering : IsAnswering store view) where
  abbrev svc : Service W Doc
  svc = new_service store cache env parsers

  invalidate-Told :
      (namespace key : String)
      → Returns view Told (ignore (invalidate_canonical cache namespace key)) (λ _. Told)
  unfolding invalidate_canonical
  invalidate-Told namespace key = record {
    run = λ w h.
        (tt, dropped_answer _ (apart.del_answers _ w), subst Told (sym (apart.del_reads _ w)) h);
  }

  module _ (req : SubmitRequest) (p : Parameter) (now : Time) where
    record_submission-Told :
        Returns view (Pending p.id "SUBMITTED") (record_submission svc req p now) (λ _. Told)
    unfolding record_submission
    record_submission-Told =
        Returns-bind (uuid-Returns clock _) λ id. append-Told contract answering _

    append_superseded-Told :
        (id : String)
        → Returns view (Pending id state_revoked) (append_superseded svc id p now) (λ _. Told)
    unfolding append_superseded
    append_superseded-Told id =
        Returns-bind (uuid-Returns clock _) λ i. append-Told contract answering _

    supersede-Told : (id : String) → Returns view Told (supersede svc req id p now) (λ _. Told)
    unfolding supersede
    supersede-Told id = Returns-if _ (Returns-imp (Returns-pure tt) (λ _ _ h. h.1)) (
        Returns-bind
          (Returns-ignore (update-Pending contract answering id state_revoked revoked≢canonical)
            (λ _ _ h. h))
          λ _.
            Returns-bind (Returns-ignore (append_superseded-Told id) (λ _ _ h. h))
              λ _. invalidate-Told req.namespace req.key)

  create_version-Told :
      (req : SubmitRequest) (existing : Result Error Parameter)
      → Settles view Told Told (create_version svc req existing) (λ _. Told)
  unfolding create_version
  create_version-Told req existing =
      Settles-bind (Settles-Same (next_version-Keeps svc contract apart Same-preorder existing))
        λ v. Settles-bind (Settles-Returns (now-Returns clock _)) λ now.
          Settles-bind (Settles-Returns (uuid-Returns clock _)) λ id.
            Settles-bind (create-Pending contract answering keyed (submitted_version req id now v))
              λ _. Settles-bind (Settles-Returns (record_submission-Told req _ now)) λ _.
                Settles-bind (Settles-Returns (supersede-Told req _ now v.1)) λ _. Settles-pure _

  append_revoked-Told :
      (p : Parameter) (actor reason : String)
      → Returns view (Pending p.id state_revoked) (append_revoked svc p actor reason) (λ _. Told)
  unfolding append_revoked
  append_revoked-Told p actor reason =
      Returns-bind (uuid-Returns clock _)
        λ id. Returns-bind (now-Returns clock _) λ now. append-Told contract answering _

  revoke-Told :
      (namespace key actor reason : String)
      → Settles view Told Told (revoke svc namespace key actor reason) (λ _. Told)
  unfolding revoke
  revoke-Told namespace key actor reason =
      Settles-bind (Settles-Same (lookup-Keeps svc contract apart Same-preorder namespace key)) λ p.
        Settles-bind
          (Settles-Returns (update-Pending contract answering p.id state_revoked revoked≢canonical))
          λ _.
            Settles-bind (Settles-Returns (append_revoked-Told p actor reason)) λ _.
              Settles-bind (Settles-Returns (invalidate-Told namespace key)) λ _. Settles-pure _

  Told-IsServed : IsServed svc view (Upholds Told)
  Told-IsServed = record {
    order = Upholds-preorder Told;
    creates = λ req existing. Settles-Keeps (create_version-Told req existing);
    evaluates = evaluate-Told env store parsers contract clock answering;
    revokes = λ namespace key actor reason. Settles-Keeps (revoke-Told namespace key actor reason);
  }

  -- Suppose the store keeps its contract and its primary key, takes events and updates to other
  -- states than CANONICAL, and changes nothing where an insertion or a promotion fails; the clock
  -- and the ids do not fail, and Redis is apart from the store and answers deletions. If the state
  -- of each version is the one to which the last event about it leads, then so it is behind any
  -- requests that are served one after another, whatever their outcomes: without overlaps, the
  -- states can be told from the ledger alone.
  pub run-Told :
      (s : Process W) (requests : List Request)
      → Told (view s.world)
      → Told (view (run svc s requests).world)
  run-Told s requests = run-Keeps svc contract clock apart Told-IsServed s requests
