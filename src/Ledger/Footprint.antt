-- ===== src/Ledger/Footprint.antt =====
-- What the service keeps of the store, on every outcome: any relation that its writes of
-- events and its revocations keep.
pub mod Runs
use truthmetal.Base.{
  ℕ, String, ◌≡◌, sym, subst, Option, none, some, List, [], ◌∷◌, Result, ok, err, arith,
}
use truthmetal.Base.Int.{ℤ}
use truthmetal.Exec.{Error, Exec, Env, IsEnv}
use truthmetal.Exec.Keeps.{
  IsPreorder, Keeps, Keeps-pure, Keeps-raise, Keeps-lift, Keeps-bind, Keeps-attempt, Keeps-ignore,
  Keeps-if,
}
use truthmetal.Model.{Parameter, LedgerEvent, SubmitRequest, ParameterState, state_revoked}
use truthmetal.Store.{Store}
use truthmetal.Store.Db.{Db}
use truthmetal.Store.Contract.{IsStore}
use truthmetal.Store.Kept.{kept_of_eq}
use truthmetal.Cache.{Cache, IsApart, get_canonical, set_canonical, invalidate_canonical}
use truthmetal.Ledger.{
  Process, Service, new_service, on_world, next_version, record_submission, append_superseded,
  supersede, cache_fresh, publish, finish, get_stored, refill, get, append_revoked, revoke,
  broadcast,
}
use truthmetal.Ledger.Reads.{uuid-Keeps, now-Keeps, lookup-Keeps, invalidate-Keeps}

ruleset rules =
    (Keeps-pure, Keeps-raise, Keeps-lift, Keeps-bind, Keeps-attempt, Keeps-ignore, Keeps-if)

-- The relation is kept by each event that is appended and by each revocation.
pub record IsKept {W : Type 0} (store : Store W) (view : W → Db) (R : Db → Db → Type 0)
    : Type 0 where
  pub order : IsPreorder R
  pub appends : (e : LedgerEvent) → Keeps R view (store.append_event e)
  pub revokes : (id : String) → Keeps R view (store.update_parameter_state id state_revoked)

module _ {W Doc : Type 0} (svc : Service W Doc) {view : W → Db} (contract : IsStore svc.store view)
    (clock : IsEnv svc.env view) (apart : IsApart svc.cache.client view) {R : Db → Db → Type 0}
    (kept : IsKept svc.store view R) where
  pub record_submission-Keeps :
      (req : SubmitRequest) (p : Parameter) (now : ℕ)
      → Keeps R view (record_submission svc req p now)
  unfolding record_submission
  record_submission-Keeps req p now =
      search (rules, kept.order, uuid-Keeps svc contract apart kept.order clock, kept.appends)

  append_superseded-Keeps :
      (id : String) (p : Parameter) (now : ℕ) → Keeps R view (append_superseded svc id p now)
  unfolding append_superseded
  append_superseded-Keeps id p now =
      search (rules, kept.order, uuid-Keeps svc contract apart kept.order clock, kept.appends)

  pub supersede-Keeps :
      (req : SubmitRequest) (id : String) (p : Parameter) (now : ℕ)
      → Keeps R view (supersede svc req id p now)
  unfolding supersede
  supersede-Keeps req id p now =
      search
        (
          rules,
          kept.order,
          kept.revokes,
          append_superseded-Keeps,
          invalidate-Keeps svc contract apart kept.order,
        )
        depth 9

  append_revoked-Keeps :
      (p : Parameter) (actor reason : String) → Keeps R view (append_revoked svc p actor reason)
  unfolding append_revoked
  append_revoked-Keeps p actor reason = search (
    rules,
    kept.order,
    uuid-Keeps svc contract apart kept.order clock,
    now-Keeps svc contract apart kept.order clock,
    kept.appends,
  )

  pub revoke-Keeps :
      (namespace key actor reason : String) → Keeps R view (revoke svc namespace key actor reason)
  unfolding revoke
  revoke-Keeps namespace key actor reason =
      search
        (
          rules,
          kept.order,
          lookup-Keeps svc contract apart kept.order,
          kept.revokes,
          append_revoked-Keeps,
          invalidate-Keeps svc contract apart kept.order,
        )
        depth 12
