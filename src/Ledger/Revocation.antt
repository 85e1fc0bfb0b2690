-- ===== src/Ledger/Revocation.antt =====
-- `Revoke` of a key that has one canonical version, and what `Get` answers.
use truthmetal.Base.{String, ◌≡◌, refl, sym, ◌∙◌, ap, subst}
use truthmetal.Exec.{returns, Exec, IsEnv, ignore, pure, ◌>>=◌, ◌>>◌}
use truthmetal.Exec.Triples.{Returns, Returns-bind}
use truthmetal.Model.{Parameter, state_revoked}
use truthmetal.Model.States.{revoked≢canonical}
use truthmetal.Store.Db.{Db, NoCanonical}
use truthmetal.Store.Contract.{IsStore}
use truthmetal.Store.Canonical.{OnlyCanonical}
use truthmetal.Store.Writable.{IsWritable, append-NoCanonical, update-leaves}
use truthmetal.Cache.{IsApart, invalidate_canonical}
use truthmetal.Consensus.Rejection.{uuid-Returns, now-Returns}
use truthmetal.Ledger.{Service, append_revoked, revoke}
use truthmetal.Ledger.LostValue.{dropped_answer}

module _ {W Doc : Type 0} (svc : Service W Doc) {view : W → Db} (contract : IsStore svc.store view)
    (clock : IsEnv svc.env view) (apart : IsApart svc.cache.client view)
    (writable : IsWritable svc.store) (namespace key : String) where
  abbrev Gone : Db → Type 0
  Gone = NoCanonical namespace key

  append_revoked-Returns :
      (p : Parameter) (actor reason : String)
      → Returns view Gone (append_revoked svc p actor reason) (λ _. Gone)
  unfolding append_revoked
  append_revoked-Returns p actor reason = Returns-bind (uuid-Returns clock Gone) λ id.
      Returns-bind (now-Returns clock Gone)
        λ now. append-NoCanonical contract writable namespace key _

  invalidate-Returns :
      Returns view Gone (ignore (invalidate_canonical svc.cache namespace key)) (λ _. Gone)
  unfolding invalidate_canonical
  invalidate-Returns = record {
    run = λ w h.
        (tt, dropped_answer _ (apart.del_answers _ w), subst Gone (sym (apart.del_reads _ w)) h);
  }

  -- `Revoke` behind its lookup.
  revoke_rest : Parameter → String → String → Exec W Parameter
  revoke_rest p actor reason = do
    svc.store.update_parameter_state p.id state_revoked
    append_revoked svc p actor reason
    ignore (invalidate_canonical svc.cache namespace key)
    pure (record p { state = state_revoked })

  revoke_rest-Returns :
      (p : Parameter) (actor reason : String)
      → Returns view
          (OnlyCanonical namespace key p.id)
          (revoke_rest p actor reason)
          (λ q d. (q ≡ record p { state = state_revoked }) × Gone d)
  unfolding revoke_rest
  revoke_rest-Returns p actor reason =
      Returns-bind
        (update-leaves contract writable namespace key p.id state_revoked revoked≢canonical)
        λ _.
          Returns-bind (append_revoked-Returns p actor reason)
            λ _. Returns-bind invalidate-Returns λ _. record { run = λ w g. (_, refl, (refl, g)) }

  revoke_found :
      (p : Parameter) (actor reason : String) (w : W)
      → (svc.store.get_parameter namespace key w).0 ≡ returns p
      → revoke svc namespace key actor reason w
        ≡ revoke_rest p actor reason (svc.store.get_parameter namespace key w).1
  unfolding revoke revoke_rest ◌>>=◌
  revoke_found p actor reason w h = rw h

  -- If the store keeps its contract and refuses no write but for the unique index, the clock and
  -- the ids do not fail, Redis is apart from the store and answers deletions, and the key has
  -- one canonical version, which the lookup returns, then `Revoke`
  -- returns it with the state REVOKED, and behind it the key has no canonical version.
  pub revoke_leaves_none :
      (p : Parameter) (actor reason : String) (w : W)
      → (svc.store.get_parameter namespace key w).0 ≡ returns p
      → OnlyCanonical namespace key p.id (view w)
      → ((revoke svc namespace key actor reason w).0 ≡ returns (record p { state = state_revoked }))
        × NoCanonical namespace key (view (revoke svc namespace key actor reason w).1)
  revoke_leaves_none p actor reason w found only =
      let start =
        subst (OnlyCanonical namespace key p.id) (sym (contract.get_reads namespace key w)) only in
      let (q, returned, facts) = (revoke_rest-Returns p actor reason).run _ start in
      let e = revoke_found p actor reason w found in
      (
        ap (λ x. x.0) e ∙ returned ∙ ap returns facts.0,
        subst Gone (sym (ap (λ x. view x.1) e)) facts.1,
      )
