-- ===== src/Ledger/Footprint/Runs.antt =====
-- What `Submit`, and runs of requests, keep of the store.
use truthmetal.Base.{String, List, [], ◌∷◌, Result}
use truthmetal.Exec.{Error, IsEnv}
use truthmetal.Exec.Keeps.{IsPreorder, Keeps, Keeps-pure, Keeps-bind, Keeps-attempt}
use truthmetal.Model.{Parameter, SubmitRequest}
use truthmetal.Store.Db.{Db}
use truthmetal.Store.Contract.{IsStore}
use truthmetal.Cache.{IsApart}
use truthmetal.Ledger.{
  Process, Service, create_version, propose, submit, revoke, get_by_id, query_audit,
}
use truthmetal.Ledger.Requests.{
  Request, submit_request, get_request, get_version_request, revoke_request, audit_request, step,
  run,
}
use truthmetal.Ledger.Footprint.{IsKept, record_submission-Keeps, supersede-Keeps, revoke-Keeps}
use truthmetal.Ledger.Reads.{
  uuid-Keeps, now-Keeps, lookup-Keeps, by_id-Keeps, audit-Keeps, next_version-Keeps, get-Keeps,
  on_world-Keeps, finish-Keeps,
}

-- What a request changes, by its parts.
pub record IsServed {W Doc : Type 0} (svc : Service W Doc) (view : W → Db) (R : Db → Db → Type 0)
    : Type 0 where
  pub order : IsPreorder R
  pub creates :
      (req : SubmitRequest) (existing : Result Error Parameter)
      → Keeps R view (create_version svc req existing)
  pub evaluates : (p : Parameter) → Keeps R view (svc.consensus.evaluate p)
  pub revokes :
      (namespace key actor reason : String) → Keeps R view (revoke svc namespace key actor reason)

module _ {W Doc : Type 0} (svc : Service W Doc) {view : W → Db} (contract : IsStore svc.store view)
    (clock : IsEnv svc.env view) (apart : IsApart svc.cache.client view)
    {R : Db → Db → Type 0} where
  module _ (kept : IsKept svc.store view R) where
    create_version-Keeps :
        ((p : Parameter) → Keeps R view (svc.store.create_parameter p))
        → (req : SubmitRequest) (existing : Result Error Parameter)
        → Keeps R view (create_version svc req existing)
    unfolding create_version
    create_version-Keeps created req existing =
        Keeps-bind kept.order view _ _ (next_version-Keeps svc contract apart kept.order existing)
          λ v. Keeps-bind kept.order view _ _ (now-Keeps svc contract apart kept.order clock) λ now.
            Keeps-bind kept.order view _ _ (uuid-Keeps svc contract apart kept.order clock) λ id.
              Keeps-bind kept.order view _ _ (created _) λ _.
                Keeps-bind kept.order view _ _
                  (record_submission-Keeps svc contract clock apart kept req _ now)
                  λ _.
                    Keeps-bind kept.order view _ _
                      (supersede-Keeps svc contract clock apart kept req _ _ now)
                      λ _. Keeps-pure kept.order view _

    pub kept-IsServed :
        ((p : Parameter) → Keeps R view (svc.store.create_parameter p))
        → ((p : Parameter) → Keeps R view (svc.consensus.evaluate p))
        → IsServed svc view R
    kept-IsServed created evaluated = record {
      order = kept.order;
      creates = create_version-Keeps created;
      evaluates = evaluated;
      revokes = revoke-Keeps svc contract clock apart kept;
    }

  module _ (served : IsServed svc view R) where
    propose-Keeps : (req : SubmitRequest) → Keeps R view (propose svc req)
    unfolding propose
    propose-Keeps req =
        Keeps-bind served.order view _ _
          (Keeps-attempt view _
            (lookup-Keeps svc contract apart served.order req.namespace req.key))
          λ existing. served.creates req existing

    pub submit-Keeps : (req : SubmitRequest) → Keeps R (λ s. view s.world) (submit svc req)
    unfolding submit
    submit-Keeps req =
        Keeps-bind served.order _ _ _
          (on_world-Keeps svc contract apart served.order _ (propose-Keeps req))
          λ p.
            Keeps-bind served.order _ _ _
              (on_world-Keeps svc contract apart served.order _ (served.evaluates p))
              λ verdict. finish-Keeps svc contract apart served.order clock p verdict

  module _ (order : IsPreorder R)
      (revokes : (namespace key actor reason : String)
        → Keeps R view (revoke svc namespace key actor reason))
      (submitted : (req : SubmitRequest) → Keeps R (λ s. view s.world) (submit svc req)) where
    pub step-Keeps :
        (s : Process W) (request : Request) → R (view s.world) (view (step svc s request).world)
    unfolding step get_by_id query_audit
    step-Keeps s (submit_request req) = (submitted req).at s
    step-Keeps s (get_request namespace key) =
        (get-Keeps svc contract apart order namespace key).at s.world
    step-Keeps s (get_version_request id) = (by_id-Keeps svc contract apart order id).at s.world
    step-Keeps s (revoke_request namespace key actor reason) =
        (revokes namespace key actor reason).at s.world
    step-Keeps s (audit_request namespace key limit offset) =
        (audit-Keeps svc contract apart order namespace key _ offset).at s.world

  module _ (served : IsServed svc view R) where
    pub served_step-Keeps :
        (s : Process W) (request : Request) → R (view s.world) (view (step svc s request).world)
    served_step-Keeps = step-Keeps served.order served.revokes (submit-Keeps served)

    -- What the parts keep, every sequence of requests keeps.
    pub run-Keeps :
        (s : Process W) (requests : List Request)
        → R (view s.world) (view (run svc s requests).world)
    unfolding run
    run-Keeps s [] = served.order.reflexive _
    run-Keeps s (request ∷ requests) =
        served.order.transitive _ _ _ (served_step-Keeps s request)
          (run-Keeps (step svc s request) requests)
