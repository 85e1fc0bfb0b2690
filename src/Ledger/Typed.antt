-- ===== src/Ledger/Typed.antt =====
-- `Submit` by itself makes no version canonical whose value does not pass the validation.
use truthmetal.Base.{ℕ, subst, sym, ◌≡◌, Option, none, Result, String}
use truthmetal.Exec.{Error, Env, IsEnv, pure, ◌>>=◌, ◌>>◌}
use truthmetal.Exec.Keeps.{Keeps, Keeps-attempt, Keeps-bind}
use truthmetal.Exec.Leads.{Leads, Leads-establish, Leads-bind, Keeps-behind}
use truthmetal.Model.{Parameter, ParameterState, SubmitRequest, state_revoked}
use truthmetal.Model.States.{submitted≢canonical, revoked≢canonical}
use truthmetal.Store.{Store}
use truthmetal.Store.Db.{Db, insert_parameter}
use truthmetal.Store.Contract.{IsStore, HasPrimaryKey}
use truthmetal.Store.Writable.{effect}
use truthmetal.Store.Kept.{create-Keeps, update-Keeps, append-Keeps}
use truthmetal.Store.Typed.{
  Upholds, Upholds-preorder, CanonicalTyped, Evaluable, CanonicalTyped-insert,
  CanonicalTyped-set_state, CanonicalTyped-add_event, Evaluable-insert, Evaluable-set_state,
  Evaluable-promote, Evaluable-add_event,
}
use truthmetal.Cache.{Cache, IsApart}
use truthmetal.Consensus.{Parsers, validate_value_type, evaluate}
use truthmetal.Consensus.Footprint.{evaluate-Keeps}
use truthmetal.Ledger.{
  record_submission, supersede, Service, new_service, on_world, submitted_version, create_version,
  propose, finish, submit,
}
use truthmetal.Ledger.Footprint.{IsKept, record_submission-Keeps, supersede-Keeps}
use truthmetal.Ledger.Reads.{
  uuid-Keeps, now-Keeps, lookup-Keeps, next_version-Keeps, finish-Keeps, on_world-Keeps,
}

-- The value has its type.
abbrev pub Passes : Parsers → String → String → Type 0
Passes parsers value value_type = validate_value_type parsers value value_type ≡ none

module _ {W Doc : Type 0} (store : Store W) (cache : Cache W Doc) (env : Env W) (parsers : Parsers)
    {view : W → Db} (contract : IsStore store view) (clock : IsEnv env view)
    (apart : IsApart cache.client view) (keyed : HasPrimaryKey store view) where
  abbrev svc : Service W Doc
  svc = new_service store cache env parsers

  abbrev pub Typed : Db → Type 0
  Typed = CanonicalTyped (Passes parsers)

  pub Typed-IsKept : IsKept store view (Upholds Typed)
  Typed-IsKept = record {
    order = Upholds-preorder Typed;
    appends = λ e.
        append-Keeps (Upholds-preorder Typed) contract e
          (CanonicalTyped-add_event (Passes parsers) e);
    revokes = λ id.
        update-Keeps (Upholds-preorder Typed) contract id state_revoked λ now d.
          CanonicalTyped-set_state (Passes parsers) id state_revoked now d revoked≢canonical;
  }

  module _ (p : Parameter) where
    abbrev pub Ready : Db → Type 0
    Ready = Evaluable (Passes parsers) p

    Ready-IsKept : IsKept store view (Upholds Ready)
    Ready-IsKept = record {
      order = Upholds-preorder Ready;
      appends = λ e.
          append-Keeps (Upholds-preorder Ready) contract e
            (Evaluable-add_event (Passes parsers) p e);
      revokes = λ id.
          update-Keeps (Upholds-preorder Ready) contract id state_revoked λ now d.
            Evaluable-set_state (Passes parsers) p id state_revoked now d revoked≢canonical;
    }

    pub evaluate-Ready : Keeps (Upholds Ready) view (evaluate env store parsers p)
    evaluate-Ready = evaluate-Keeps env store parsers clock p (record {
      order = Upholds-preorder Ready;
      appends = Ready-IsKept.appends;
      updates = λ state n.
          update-Keeps (Upholds-preorder Ready) contract p.id state
            λ now d. Evaluable-set_state (Passes parsers) p p.id state now d n;
      promotes = λ passed.
          update-Keeps (Upholds-preorder Ready) contract p.id _
            λ now d. Evaluable-promote (Passes parsers) p now d passed;
    })

    -- The version is in the table, and the rest of its proposal is written.
    proposed-Leads :
        (req : SubmitRequest) (prev_id : String) (now : ℕ)
        → Leads view Ready
            (do record_submission svc req p now; supersede svc req prev_id p now; pure p)
            (λ q. Evaluable (Passes parsers) q)
    proposed-Leads req prev_id now =
        Leads-bind _ _ (record_submission-Keeps svc contract clock apart Ready-IsKept req p now)
          λ _.
            Leads-bind _ _ (supersede-Keeps svc contract clock apart Ready-IsKept req prev_id p now)
              λ _. record {
                returned = λ s q r e.
                    let same : p ≡ q = cc in
                    subst (λ x. Evaluable (Passes parsers) x (view s)) same r;
                upheld = λ s r. r;
              }

    finish-Ready :
        (verdict : ParameterState × Option Error)
        → Keeps (Upholds Ready) (λ s. view s.world) (finish svc p verdict)
    finish-Ready verdict = finish-Keeps svc contract apart Ready-IsKept.order clock p verdict

    -- What `Submit` does with a version that it has created.
    decided-Ready :
        Keeps
          (Upholds Ready)
          (λ s. view s.world)
          (do verdict ← on_world (evaluate env store parsers p); finish svc p verdict)
    decided-Ready =
        Keeps-bind (Upholds-preorder Ready) _ _ _
          (on_world-Keeps svc contract apart Ready-IsKept.order _ evaluate-Ready) finish-Ready

  module _ (req : SubmitRequest) where
    pub create_version-Leads :
        (existing : Result Error Parameter)
        → Leads view Typed (create_version svc req existing) (λ q. Evaluable (Passes parsers) q)
    unfolding create_version
    create_version-Leads existing =
        Leads-bind _ _ (next_version-Keeps svc contract apart Typed-IsKept.order existing) λ v.
          Leads-bind _ _ (now-Keeps svc contract apart Typed-IsKept.order clock) λ now.
            Leads-bind _ _ (uuid-Keeps svc contract apart Typed-IsKept.order clock) λ id.
              let p = submitted_version req id now v in
              Leads-establish {E = Evaluable (Passes parsers) p} (store.create_parameter p) _
                (create-Keeps (Upholds-preorder Typed) contract p
                  (λ d. CanonicalTyped-insert (Passes parsers) p d submitted≢canonical))
                (λ w _ typed e.
                  let x =
                    effect (λ b a. a ≡ insert_parameter p b) _ _ _ tt (contract.create p w) e in
                  subst (Evaluable (Passes parsers) p) (sym x) (
                    Evaluable-insert (Passes parsers) p (view w) submitted≢canonical
                      (keyed.created p w x) typed))
                (λ d r. r.0) (λ _. proposed-Leads p req v.1 now)

    propose-Leads : Leads view Typed (propose svc req) (λ q. Evaluable (Passes parsers) q)
    unfolding propose
    propose-Leads =
        Leads-bind _ _
          (Keeps-attempt view _
            (lookup-Keeps svc contract apart Typed-IsKept.order req.namespace req.key))
          create_version-Leads

    pub submit-Typed : Keeps (Upholds Typed) (λ s. view s.world) (submit svc req)
    unfolding submit
    submit-Typed =
        Keeps-behind {V = Typed} {Q = λ q. Evaluable (Passes parsers) q}
          (on_world (propose svc req)) _
          (record {
            returned = λ s a. propose-Leads.returned s.world a;
            upheld = λ s. propose-Leads.upheld s.world;
          })
          (λ p s r. ((decided-Ready p).at s r).0)
