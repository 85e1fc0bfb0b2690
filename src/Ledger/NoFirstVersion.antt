-- ===== src/Ledger/NoFirstVersion.antt =====
-- No sequence of requests brings the first version of any key into the store.
use truthmetal.Base.{String, ◌≡◌, refl, sym, ◌∙◌, ap, subst, List, [], ◌∷◌}
use truthmetal.Exec.{Error, fails, ◌>>=◌}
use truthmetal.Exec.Keeps.{Same-preorder}
use truthmetal.Store.Db.{Db, NoCanonical}
use truthmetal.Store.Contract.{IsStore}
use truthmetal.Cache.{IsApart}
use truthmetal.Ledger.Panics.{answer_fails, submit_of_new_key}
use truthmetal.Ledger.Requests.{
  Request, submit_request, get_request, get_version_request, revoke_request, audit_request, step,
  run,
}
use truthmetal.Ledger.Reads.{get-Keeps}
use truthmetal.Ledger.{Process, Service, get_by_id, revoke, query_audit}

module _ {W Doc : Type 0} (svc : Service W Doc) {view : W → Db} (contract : IsStore svc.store view)
    (apart : IsApart svc.cache.client view) where
  -- A revocation whose lookup fails does nothing else.
  revoke_error :
      (namespace key actor reason : String) (w : W) (e : Error)
      → (svc.store.get_parameter namespace key w).0 ≡ fails e
      → revoke svc namespace key actor reason w
        ≡ (fails e, (svc.store.get_parameter namespace key w).1)
  unfolding revoke ◌>>=◌
  revoke_error namespace key actor reason w e h = rw h

  abbrev Bare : Db → Type 0
  Bare d = (namespace key : String) → NoCanonical namespace key d

  step-Same :
      (s : Process W) (request : Request)
      → Bare (view s.world)
      → view (step svc s request).world ≡ view s.world
  unfolding step get_by_id query_audit
  step-Same s (submit_request req) bare =
      (submit_of_new_key svc contract req s (bare req.namespace req.key)).1
  step-Same s (get_request namespace key) bare =
      (get-Keeps svc contract apart Same-preorder namespace key).at s.world
  step-Same s (get_version_request id) bare = contract.by_id_reads id s.world
  step-Same s (revoke_request namespace key actor reason) bare =
      let found = contract.get namespace key s.world in
      let (e, failed) = answer_fails namespace key (view s.world) _ found (bare namespace key) in
      ap (λ r. view r.1) (revoke_error namespace key actor reason s.world e failed)
      ∙ contract.get_reads namespace key s.world
  step-Same s (audit_request namespace key limit offset) bare =
      contract.audit_reads namespace key _ offset s.world

  -- If the store keeps its contract and Redis is apart from it, and the store holds no canonical
  -- version of any key, as a new database, then after any requests to the service it holds
  -- exactly what it held: no version is ever created.
  pub run_of_NoCanonical :
      (s : Process W) (requests : List Request)
      → ((namespace key : String) → NoCanonical namespace key (view s.world))
      → view (run svc s requests).world ≡ view s.world
  unfolding run
  run_of_NoCanonical s [] bare = refl
  run_of_NoCanonical s (request ∷ requests) bare =
      let same = step-Same s request bare in
      run_of_NoCanonical (step svc s request) requests (subst Bare (sym same) bare) ∙ same
