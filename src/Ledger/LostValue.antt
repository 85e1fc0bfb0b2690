-- ===== src/Ledger/LostValue.antt =====
-- `Submit` of an invalid value for a key that has a canonical version.
use truthmetal.Base.{
  String, ◌≡◌, ◌≢◌, refl, sym, ◌∙◌, ap, subst, subst₂, false, some, ok, ◌==◌, arith,
}
use truthmetal.Base.Int.{pos, add64}
use truthmetal.Exec.{
  Error, other, Outcome, returns, fails, panics, Env, IsEnv, ignore, dropped, ◌>>=◌,
}
use truthmetal.Exec.Triples.{Returns, Returns-bind, Returns-ignore, Returns-pure_bind}
use truthmetal.Model.{Time, Parameter, SubmitRequest, state_revoked, state_rejected}
use truthmetal.Model.States.{submitted≢canonical, revoked≢canonical}
use truthmetal.Store.{Store}
use truthmetal.Store.Db.{Db, NoCanonical}
use truthmetal.Store.Contract.{IsStore}
use truthmetal.Store.Canonical.{OnlyCanonical}
use truthmetal.Store.Writable.{
  IsWritable, create-OnlyCanonical, append-OnlyCanonical, append-NoCanonical, update-leaves,
}
use truthmetal.Cache.{Cache, IsApart, invalidate_canonical}
use truthmetal.Consensus.{Parsers, evaluate, validate_value_type}
use truthmetal.Consensus.Rejection.{uuid-Returns, now-Returns, evaluate_rejection}
use truthmetal.Ledger.{
  Process, Service, new_service, next_version, record_submission, append_superseded, supersede,
  create_version, propose, finish, submit,
}

pub dropped_answer : {A : Type 0} (r : Outcome A) → r ≢ panics → dropped r ≡ returns tt
dropped_answer (returns a) n = refl
dropped_answer (fails e) n = refl
dropped_answer panics n = absurd (n refl)

module _ {W Doc : Type 0} (store : Store W) (cache : Cache W Doc) (env : Env W) (parsers : Parsers)
    {view : W → Db} (contract : IsStore store view) (clock : IsEnv env view)
    (apart : IsApart cache.client view) (writable : IsWritable store) where
  abbrev svc : Service W Doc
  svc = new_service store cache env parsers

  module _ (req : SubmitRequest) (prev : Parameter) where
    abbrev Old : Db → Type 0
    Old = OnlyCanonical req.namespace req.key prev.id

    abbrev Gone : Db → Type 0
    Gone = NoCanonical req.namespace req.key

    record_submission-Returns :
        (p : Parameter) (now : Time) → Returns view Old (record_submission svc req p now) (λ _. Old)
    unfolding record_submission
    record_submission-Returns p now =
        Returns-bind (uuid-Returns clock Old)
          λ id. append-OnlyCanonical contract writable req.namespace req.key prev.id _

    append_superseded-Returns :
        (p : Parameter) (now : Time)
        → Returns view Gone (append_superseded svc prev.id p now) (λ _. Gone)
    unfolding append_superseded
    append_superseded-Returns p now =
        Returns-bind (uuid-Returns clock Gone)
          λ id. append-NoCanonical contract writable req.namespace req.key _

    invalidate-Returns :
        Returns view Gone (ignore (invalidate_canonical cache req.namespace req.key)) (λ _. Gone)
    unfolding invalidate_canonical
    invalidate-Returns = record {
      run = λ w h.
          (tt, dropped_answer _ (apart.del_answers _ w), subst Gone (sym (apart.del_reads _ w)) h);
    }

    supersede-Returns :
        (p : Parameter) (now : Time)
        → prev.id ≢ ""
        → Returns view Old (supersede svc req prev.id p now) (λ _. Gone)
    unfolding supersede
    supersede-Returns p now named =
        let other_id : (prev.id == "") ≡ false = ground arith in
        rw other_id (
          Returns-bind
            (Returns-ignore
              (update-leaves contract writable req.namespace req.key prev.id state_revoked
                revoked≢canonical)
              (λ _ _ h. h))
            λ _.
              Returns-bind (Returns-ignore (append_superseded-Returns p now) (λ _ _ h. h))
                λ _. invalidate-Returns)

    abbrev Proposed : Parameter → Db → Type 0
    Proposed p d = (p.value ≡ req.value) × (p.value_type ≡ req.value_type) × Gone d

    create_version-Returns :
        prev.id ≢ "" → Returns view Old (create_version svc req (ok prev)) Proposed
    unfolding create_version next_version
    create_version-Returns named =
        Returns-pure_bind (add64 prev.version (pos 1), prev.id) _
          (Returns-bind (now-Returns clock Old) λ now. Returns-bind (uuid-Returns clock Old) λ id.
            Returns-bind
              (create-OnlyCanonical contract writable req.namespace req.key prev.id _
                submitted≢canonical)
              λ _. Returns-bind (record_submission-Returns _ now) λ _.
                Returns-bind (supersede-Returns _ now named)
                  λ _. record { run = λ w g. (_, refl, (refl, refl, g)) })

    propose_found :
        (w : W)
        → (store.get_parameter req.namespace req.key w).0 ≡ returns prev
        → propose svc req w
          ≡ create_version svc req (ok prev) (store.get_parameter req.namespace req.key w).1
    unfolding propose ◌>>=◌
    propose_found w h = rw h

    submit_rejected :
        (s : Process W) (p : Parameter) (e : Error) (w : W)
        → propose svc req s.world ≡ (returns p, w)
        → (evaluate env store parsers p w).0 ≡ returns (state_rejected, some e)
        → submit svc req s ≡ (fails e, record s { world = (evaluate env store parsers p w).1 })
    unfolding submit finish ◌>>=◌
    submit_rejected s p e w proposed verdict = rw (proposed, verdict)

    -- Suppose the store keeps its contract and refuses no write but for the unique index, the
    -- clock and the ids do not fail, and Redis is apart from the store and answers deletions. If
    -- the value of a request does not have its type, and its key has one canonical version, which
    -- has an id and is what the lookup returns, then `Submit` fails with the message of the
    -- validation, and behind it the key has no canonical version: the old value is revoked
    -- before the new one is checked.
    pub submit_invalid_loses :
        (message : String) (s : Process W)
        → validate_value_type parsers req.value req.value_type ≡ some message
        → (store.get_parameter req.namespace req.key s.world).0 ≡ returns prev
        → prev.id ≢ ""
        → OnlyCanonical req.namespace req.key prev.id (view s.world)
        → ((submit svc req s).0 ≡ fails (other message))
          × NoCanonical req.namespace req.key (view (submit svc req s).1.world)
    submit_invalid_loses message s invalid found named only =
        let w = (store.get_parameter req.namespace req.key s.world).1 in
        let start = subst Old (sym (contract.get_reads req.namespace req.key s.world)) only in
        let (p, proposed, facts) = (create_version-Returns named).run w start in
        let q = propose_found s.world found in
        let invalid' =
          subst₂ (λ v t. validate_value_type parsers v t ≡ some message) (sym facts.0) (sym facts.1)
            invalid in
        let (v, evaluated, facts') =
          (evaluate_rejection env store parsers contract clock writable req.namespace req.key p
              message invalid').run
            _ facts.2 in
        let q' =
          submit_rejected s p (other message) _
            (q ∙ ap (λ r. (r, (create_version svc req (ok prev) w).1)) proposed)
            (evaluated ∙ ap returns facts'.0) in
        (ap (λ x. x.0) q', subst Gone (sym (ap (λ x. view x.1.world) q')) facts'.1)
