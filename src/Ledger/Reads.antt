-- ===== src/Ledger/Reads.antt =====
-- What the service's reads keep of the store, on every outcome: any preorder.
use truthmetal.Base.{ℕ, String, Option, none, some, Result, ok, err, arith}
use truthmetal.Base.Int.{ℤ}
use truthmetal.Exec.{Error, Exec, IsEnv}
use truthmetal.Exec.Keeps.{
  IsPreorder, Keeps, Keeps-pure, Keeps-raise, Keeps-lift, Keeps-bind, Keeps-attempt, Keeps-ignore,
  Keeps-if,
}
use truthmetal.Model.{Parameter, LedgerEvent, ParameterState}
use truthmetal.Store.Db.{Db}
use truthmetal.Store.Contract.{IsStore}
use truthmetal.Store.Kept.{kept_of_eq}
use truthmetal.Cache.{IsApart, get_canonical, set_canonical, invalidate_canonical}
use truthmetal.Ledger.{
  Process, Service, on_world, next_version, cache_fresh, publish, finish, get_stored, refill, get,
  broadcast,
}

ruleset rules =
    (Keeps-pure, Keeps-raise, Keeps-lift, Keeps-bind, Keeps-attempt, Keeps-ignore, Keeps-if)

module _ {W Doc : Type 0} (svc : Service W Doc) {view : W → Db} (contract : IsStore svc.store view)
    (apart : IsApart svc.cache.client view) {R : Db → Db → Type 0} (order : IsPreorder R) where
  client_get-Keeps : (k : String) → Keeps R view (svc.cache.client.get k)
  client_get-Keeps k = record { at = λ w. kept_of_eq order (apart.get_reads k w) }

  client_set-Keeps : (k : String) (d : Doc) (n : ℕ) → Keeps R view (svc.cache.client.set k d n)
  client_set-Keeps k d n = record { at = λ w. kept_of_eq order (apart.set_reads k d n w) }

  client_del-Keeps : (k : String) → Keeps R view (svc.cache.client.del k)
  client_del-Keeps k = record { at = λ w. kept_of_eq order (apart.del_reads k w) }

  pub get_canonical-Keeps :
      (namespace key : String) → Keeps R view (get_canonical svc.cache namespace key)
  unfolding get_canonical
  get_canonical-Keeps namespace key = search (rules, order, client_get-Keeps)

  set_canonical-Keeps : (p : Parameter) → Keeps R view (set_canonical svc.cache p)
  unfolding set_canonical
  set_canonical-Keeps p = search (rules, order, client_set-Keeps)

  pub invalidate-Keeps :
      (namespace key : String) → Keeps R view (invalidate_canonical svc.cache namespace key)
  unfolding invalidate_canonical
  invalidate-Keeps namespace key = search (rules, client_del-Keeps)

  pub lookup-Keeps : (namespace key : String) → Keeps R view (svc.store.get_parameter namespace key)
  lookup-Keeps namespace key = record {
    at = λ w. kept_of_eq order (contract.get_reads namespace key w);
  }

  pub by_id-Keeps : (id : String) → Keeps R view (svc.store.get_parameter_by_id id)
  by_id-Keeps id = record { at = λ w. kept_of_eq order (contract.by_id_reads id w) }

  pub audit-Keeps :
      (namespace key : String) (limit offset : ℤ)
      → Keeps R view (svc.store.query_audit namespace key limit offset)
  audit-Keeps namespace key limit offset = record {
    at = λ w. kept_of_eq order (contract.audit_reads namespace key limit offset w);
  }

  pub next_version-Keeps : (r : Result Error Parameter) → Keeps R view (next_version {W = W} r)
  unfolding next_version
  next_version-Keeps (ok p) = search (rules, order)
  next_version-Keeps (err e) = search (rules, order)

  pub cache_fresh-Keeps : (p : Parameter) → Keeps R view (cache_fresh svc p)
  unfolding cache_fresh
  cache_fresh-Keeps p = search (rules, order, set_canonical-Keeps)

  pub refill-Keeps : (p : Parameter) → Keeps R view (refill svc p)
  unfolding refill
  refill-Keeps p = search (rules, order, set_canonical-Keeps)

  get_stored-Keeps :
      (namespace key : String) (r : Result Error Parameter)
      → Keeps R view (get_stored svc namespace key r)
  unfolding get_stored
  get_stored-Keeps namespace key (ok p) = search (rules, order)
  get_stored-Keeps namespace key (err e) = search (rules, order, lookup-Keeps, refill-Keeps)

  pub get-Keeps : (namespace key : String) → Keeps R view (get svc namespace key)
  unfolding get
  get-Keeps namespace key = search (rules, order, get_canonical-Keeps, get_stored-Keeps)

  -- What the process shows is what its world shows.
  abbrev pub shown : Process W → Db
  shown s = view s.world

  pub on_world-Keeps : {A : Type 0} (m : Exec W A) → Keeps R view m → Keeps R shown (on_world m)
  on_world-Keeps m k = record { at = λ s. k.at s.world }

  module _ (clock : IsEnv svc.env view) where
    pub uuid-Keeps : Keeps R view svc.env.new_uuid
    uuid-Keeps = record { at = λ w. kept_of_eq order (clock.uuid_reads w) }

    pub now-Keeps : Keeps R view svc.env.now
    now-Keeps = record { at = λ w. kept_of_eq order (clock.now_reads w) }

    broadcast-Keeps : (e : LedgerEvent) → Keeps R shown (broadcast e)
    unfolding broadcast
    broadcast-Keeps e = record { at = λ s. kept_of_eq order (ground arith) }

    publish-Keeps : (p : Parameter) (r : Result Error Parameter) → Keeps R shown (publish svc p r)
    unfolding publish
    publish-Keeps p (err e) = search (rules, order)
    publish-Keeps p (ok fresh) =
        Keeps-bind order shown _ _ (on_world-Keeps _ (cache_fresh-Keeps fresh)) λ _.
          Keeps-bind order shown _ _ (on_world-Keeps _ now-Keeps)
            λ now. Keeps-bind order shown _ _ (broadcast-Keeps _) λ _. Keeps-pure order shown fresh

    pub finish-Keeps :
        (p : Parameter) (verdict : ParameterState × Option Error)
        → Keeps R shown (finish svc p verdict)
    unfolding finish
    finish-Keeps p (state, some e) = search (rules, order)
    finish-Keeps p (state, none) =
        search (rules, order, on_world-Keeps, by_id-Keeps, publish-Keeps) depth 9
