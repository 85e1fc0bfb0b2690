-- ===== src/Ledger/ReadBack.antt =====
-- `Get` behind a `Submit` that succeeds, where Redis keeps what it is told.
use truthmetal.Base.{
  String, ◌≡◌, ◌≢◌, refl, sym, ap, ◌∙◌, subst, subst₂, true, none, inl, inr, List, [], ◌∷◌, ◌++◌,
  map, arith, All, ◌==◌,
}
use truthmetal.Base.Int.{pos, add64}
use truthmetal.Exec.{Error, not_found, other, Outcome, returns, fails, panics, Env, IsEnv, ◌>>=◌}
use truthmetal.Model.{
  Time, Parameter, ParameterState, SubmitRequest, state_canonical, state_revoked,
}
use truthmetal.Store.{Store}
use truthmetal.Store.Db.{Db, set_row, Among}
use truthmetal.Store.Contract.{IsStore, FoundById}
use truthmetal.Store.Writable.{IsTaking}
use truthmetal.Cache.{Cache, IsApart, cache_key, get_canonical, set_canonical}
use truthmetal.Consensus.{Parsers, validate_value_type}
use truthmetal.Ledger.{
  Process, Service, new_service, cache_fresh, publish, broadcast, finish, submit, get,
}
use truthmetal.Ledger.Overlap.{Remembers, get_cached}
use truthmetal.Ledger.Proposal.{successor}
use truthmetal.Ledger.Supersession.{Decided, submit-Decided}

-- The version that `Submit` answers is the request's, canonical, as the successor of `prev`.
pub record Succeeds (req : SubmitRequest) (prev q : Parameter) : Type 0 where
  pub state : q.state ≡ state_canonical
  pub namespace : q.namespace ≡ req.namespace
  pub key : q.key ≡ req.key
  pub value : q.value ≡ req.value
  pub value_type : q.value_type ≡ req.value_type
  pub version : q.version ≡ add64 prev.version (pos 1)
  pub previous : q.previous_version_id ≡ prev.id

-- The rows behind a submission: one changed, then the new one promoted.
module _ (id old : String) (m n : Time) where
  abbrev moved : Parameter → Parameter
  moved r = set_row id state_canonical n (set_row old state_revoked m r)

  moved_id : (r : Parameter) → (moved r).id ≡ r.id
  moved_id r = ground arith

  abbrev moved_all : List Parameter → List Parameter
  moved_all rs = map (set_row id state_canonical n) (map (set_row old state_revoked m) rs)

  last_row :
      (q p : Parameter) (rs : List Parameter)
      → All (λ r. r.id ≢ id) rs
      → Among q (moved_all (rs ++ p ∷ []))
      → q.id ≡ id
      → q ≡ moved p
  last_row q p [] fresh (inl e) h = e
  last_row q p [] fresh (inr x) h = absurd x
  last_row q p (r ∷ rs) (n', fresh) (inl e) h =
      absurd (n' (sym (moved_id r) ∙ sym (ap (λ x. x.id) e) ∙ h))
  last_row q p (r ∷ rs) (n', fresh) (inr x) h = last_row q p rs fresh x h

  last_there : (p : Parameter) (rs : List Parameter) → Among (moved p) (moved_all (rs ++ p ∷ []))
  last_there p [] = inl refl
  last_there p (r ∷ rs) = inr (last_there p rs)

module _ (req : SubmitRequest) (prev : Parameter) where
  moved-Succeeds :
      (id : String) (created m n : Time)
      → Succeeds req prev (moved id prev.id m n (successor req prev id created))
  moved-Succeeds id created m n = record {
    state = ground arith;
    namespace = ground arith;
    key = ground arith;
    value = ground arith;
    value_type = ground arith;
    version = ground arith;
    previous = ground arith;
  }

unfound :
    (id : String) (q : Parameter) (rs : List Parameter)
    → All (λ r. (e : r.id ≡ id) → ⊥) rs
    → Among q rs
    → q.id ≡ id
    → ⊥
unfound id q [] h x named = absurd x
unfound id q (r ∷ rs) (n, h) (inl e) named = n (sym (ap (λ x. x.id) e) ∙ named)
unfound id q (r ∷ rs) (n, h) (inr x) named = unfound id q rs h x named

-- A lookup of a version that is there returns it, if it fails only where a version is missing.
found_by_id :
    (id : String) (db : Db) (o : Outcome Parameter) (p : Parameter)
    → FoundById id db o
    → ((m : String) → o ≢ fails (other m))
    → Among p db.parameters
    → p.id ≡ id
    → (q : Parameter) × (o ≡ returns q) × Among q db.parameters × (q.id ≡ id)
found_by_id id db (returns q) p f n a e = (q, refl, f.0, f.1)
found_by_id id db (fails (not_found r)) p f n a e = absurd (unfound id p db.parameters f a e)
found_by_id id db (fails (Error.other m)) p f n a e = absurd (n m refl)
found_by_id id db panics p f n a e = absurd f

module _ {W Doc : Type 0} (store : Store W) (cache : Cache W Doc) (env : Env W) (parsers : Parsers)
    {view : W → Db} (clock : IsEnv env view) where
  abbrev svc : Service W Doc
  svc = new_service store cache env parsers

  module _ (q : Parameter) (canonical : q.state ≡ state_canonical) (remembers : Remembers cache q)
      (still : (k : String) (w : W)
        → (cache.client.get k (env.now w).1).0 ≡ (cache.client.get k w).0) where
    cache_fresh_returns : (w : W) → (cache_fresh svc q w).0 ≡ returns tt
    unfolding cache_fresh set_canonical cache_key ◌>>=◌
    cache_fresh_returns w =
        let test : (q.state == state_canonical) ≡ true = ground arith in
        rw (test, remembers.marshalled, remembers.set _ w)

    fresh_cached :
        (w : W)
        → (get_canonical cache q.namespace q.key (env.now (cache_fresh svc q w).1).1).0 ≡ returns q
    unfolding cache_fresh set_canonical get_canonical cache_key ◌>>=◌
    fresh_cached w =
        let test : (q.state == state_canonical) ≡ true = ground arith in
        rw (still _ _, test, remembers.marshalled, remembers.kept _ w, remembers.unmarshalled)

    fresh_cached_at :
        (namespace key : String) (w : W)
        → q.namespace ≡ namespace
        → q.key ≡ key
        → (get_canonical cache namespace key (env.now (cache_fresh svc q w).1).1).0 ≡ returns q
    fresh_cached_at namespace key w n k =
        subst₂ (λ n k. (get_canonical cache n k (env.now (cache_fresh svc q w).1).1).0 ≡ returns q)
          n k (fresh_cached w)

  -- The end of `Submit` where the refresh finds a canonical version.
  finish_fresh :
      (q p : Parameter) (state : ParameterState) (s : Process W)
      → (store.get_parameter_by_id p.id s.world).0 ≡ returns q
      → ((w : W) → (cache_fresh svc q w).0 ≡ returns tt)
      → ((finish svc p (state, none) s).0 ≡ returns q)
        × ((finish svc p (state, none) s).1.world
            ≡ (env.now (cache_fresh svc q (store.get_parameter_by_id p.id s.world).1).1).1)
  unfolding finish publish broadcast ◌>>=◌
  finish_fresh q p state s found kept =
      let now = (clock.now (cache_fresh svc q (store.get_parameter_by_id p.id s.world).1).1).1 in
      rw (found, kept _, now) (refl, ground arith)

  module _ (contract : IsStore store view) (apart : IsApart cache.client view)
      (taking : IsTaking store) (remembers : (q : Parameter) → Remembers cache q)
      (still : (k : String) (w : W)
        → (cache.client.get k (env.now w).1).0 ≡ (cache.client.get k w).0)
      (reads : (id : String) (w : W) (m : String)
        → (store.get_parameter_by_id id w).0 ≢ fails (Error.other m)) where
    -- Behind the consensus the refresh finds the version that the request asked for.
    refreshed :
        (req : SubmitRequest) (prev : Parameter) (s : Process W)
        → ((w : W) (id : String)
            → (env.new_uuid w).0 ≡ returns id
            → All (λ r. r.id ≢ id) (view s.world).parameters)
        → (d : Decided store cache env parsers contract clock apart taking req prev s)
        → (q : Parameter) × ((store.get_parameter_by_id d.p.id d.world).0 ≡ returns q)
          × Succeeds req prev q
    refreshed req prev s fresh d =
        let h = d.superseded in
        let p = successor req prev h.id h.created in
        let named_id : d.p.id ≡ h.id = ap (λ x. x.id) d.proposal.version ∙ sym d.same_id in
        let (q, e, among, same) =
          found_by_id d.p.id (view d.world) (store.get_parameter_by_id d.p.id d.world).0
            (moved h.id prev.id h.revoked h.promoted p) (contract.by_id d.p.id d.world)
            (reads d.p.id d.world)
            (subst (Among _) (sym h.stage.holds)
              (last_there h.id prev.id h.revoked h.promoted p (view s.world).parameters))
            (moved_id h.id prev.id h.revoked h.promoted p ∙ sym named_id) in
        let new : All (λ r. r.id ≢ h.id) (view s.world).parameters =
          subst (λ i. All (λ r. r.id ≢ i) (view s.world).parameters) (sym d.same_id)
            (fresh d.proposal.generated.0 d.proposal.id d.proposal.generated.1) in
        let stored =
          last_row h.id prev.id h.revoked h.promoted q p (view s.world).parameters new
            (subst (Among q) h.stage.holds among) (same ∙ named_id) in
        (
          q,
          e,
          subst (Succeeds req prev) (sym stored)
              (moved-Succeeds req prev h.id h.created h.revoked h.promoted),
        )

    -- Suppose the store keeps its contract, takes every write and finds what is there, the clock
    -- and the ids do not fail, the ids are new, and Redis is apart from the store and keeps what
    -- it is told, whatever the clock does. If the value of a request has its type, and its key has
    -- a canonical version `prev`, which has an id and is what the lookup returns, then `Submit`
    -- returns the request's version, canonical, numbered one above `prev` in 64 bits and with the
    -- id of `prev` as that of its predecessor, and the `Get` of its key behind it answers this
    -- very version.
    pub get-submit :
        (req : SubmitRequest) (prev : Parameter) (s : Process W)
        → ((w : W) (id : String)
            → (env.new_uuid w).0 ≡ returns id
            → All (λ r. r.id ≢ id) (view s.world).parameters)
        → validate_value_type parsers req.value req.value_type ≡ none
        → (store.get_parameter req.namespace req.key s.world).0 ≡ returns prev
        → prev.id ≢ ""
        → (q : Parameter) × ((submit svc req s).0 ≡ returns q)
          × Succeeds req prev q
          × ((get svc req.namespace req.key (submit svc req s).1.world).0 ≡ returns q)
    get-submit req prev s fresh valid found named =
        let d =
          submit-Decided store cache env parsers contract clock apart taking req prev s valid found
            named in
        let (q, e, answer) = refreshed req prev s fresh d in
        let (returned, left) =
          finish_fresh q d.p state_canonical (record s { world = d.world }) e
            (cache_fresh_returns q answer.state (remembers q) still) in
        let kept =
          fresh_cached_at q answer.state (remembers q) still req.namespace req.key
            (store.get_parameter_by_id d.p.id d.world).1 answer.namespace answer.key in
        (
          q,
          ap (λ x. x.0) d.ended ∙ returned,
          answer,
          get_cached svc q (remembers q) req.namespace req.key (submit svc req s).1.world (
              subst (λ w. (get_canonical cache req.namespace req.key w).0 ≡ returns q)
                (sym (ap (λ x. x.1.world) d.ended ∙ left)) kept),
        )
