-- ===== src/Ledger/Supersession.antt =====
-- `Submit` of a valid value for a key that has a canonical version.
use mathlib.Core.List
use mathlib.Core.List.{append_assoc, append-nil}
use truthmetal.Base.{
  String, ◌≡◌, ◌≢◌, refl, sym, ap, ◌∙◌, subst, none, All, List, [], ◌∷◌, ◌++◌, map, ok,
}
use truthmetal.Exec.{returns, Env, IsEnv, ◌>>=◌}
use truthmetal.Model.{Time, Parameter, SubmitRequest, state_canonical, state_revoked}
use truthmetal.Store.{Store}
use truthmetal.Store.Db.{Db, Among, set_row}
use truthmetal.Store.Contract.{IsStore}
use truthmetal.Store.Writable.{IsTaking, IsTaking-IsWritable}
use truthmetal.Cache.{Cache, IsApart}
use truthmetal.Consensus.{Parsers, evaluate, validate_value_type}
use truthmetal.Consensus.Trail.{transition, trail_of, Lifecycle}
use truthmetal.Consensus.Lifecycle.{evaluate-Lifecycle}
use truthmetal.Ledger.{Process, Service, new_service, create_version, propose, finish, submit}
use truthmetal.Ledger.Stages.{submission_trail, Stage}
use truthmetal.Ledger.Proposal.{successor, Proposed, create_version-Proposed}

-- What was written from `before` to `after`: a version, the revocation of `prev`, the promotion.
pub record Promotes (req : SubmitRequest) (prev : Parameter) (before after : Db) : Type 0 where
  pub id : String
  pub created : Time
  pub revoked : Time
  pub promoted : Time
  pub stage :
      Stage before
        (map (set_row id state_canonical promoted) (
          map
            (set_row prev.id state_revoked revoked)
            (before.parameters ++ successor req prev id created ∷ [])))
        (submission_trail prev.id id ++ trail_of id none)
        after

-- A verdict completes the stage.
promote :
    {W : Type 0} (env : Env W) (req : SubmitRequest) (prev p : Parameter) (before middle after : Db)
    → Proposed env req prev before p middle
    → Lifecycle p.id middle (trail_of p.id none) state_canonical after
    → Promotes req prev before after
promote env req prev p before middle after h l =
    let named : p.id ≡ h.id = ap (λ q. q.id) h.version in
    let l' : Lifecycle h.id middle (trail_of h.id none) state_canonical after =
      subst (λ i. Lifecycle i middle (trail_of i none) state_canonical after) named l in
    record {
      id = h.id;
      created = h.created;
      revoked = h.revoked;
      promoted = l'.updated;
      stage = record {
        holds = l'.rows ∙ ap (map (set_row h.id state_canonical l'.updated)) h.stage.holds;
        entries = h.stage.entries ++ l'.entries;
        ledger = rw (l'.ledger, h.stage.ledger) (append_assoc before.events _ _);
        transitions =
            List.map-append transition h.stage.entries l'.entries
            ∙ rw (h.stage.transitions, l'.transitions);
      };
    }

-- From `before` to `after` the version `prev` of before was revoked, and one version with a new id
-- came behind the others: the request's, canonical, as the successor of `prev`.
pub record Supersedes (req : SubmitRequest) (prev : Parameter) (before after : Db) : Type 0 where
  pub id : String
  pub created : Time
  pub revoked : Time
  pub promoted : Time
  pub held : Among prev before.parameters
  pub new : All (λ r. r.id ≢ id) before.parameters
  pub stage :
      Stage before
        (map (set_row prev.id state_revoked revoked) before.parameters
          ++ record (successor req prev id created) {
            state = state_canonical;
            updated_at = promoted;
          }
            ∷ [])
        (submission_trail prev.id id ++ trail_of id none)
        after

module _ {W Doc : Type 0} (store : Store W) (cache : Cache W Doc) (env : Env W) (parsers : Parsers)
    {view : W → Db} (contract : IsStore store view) (clock : IsEnv env view)
    (apart : IsApart cache.client view) (taking : IsTaking store) where
  abbrev svc : Service W Doc
  svc = new_service store cache env parsers

  module _ (req : SubmitRequest) (prev : Parameter) where
    submit_promoted :
        (s : Process W) (p : Parameter) (w : W)
        → (store.get_parameter req.namespace req.key s.world).0 ≡ returns prev
        → create_version svc req (ok prev) (store.get_parameter req.namespace req.key s.world).1
          ≡ (returns p, w)
        → (evaluate env store parsers p w).0 ≡ returns (state_canonical, none)
        → submit svc req s
          ≡ finish svc p
              (state_canonical, none)
              (record s { world = (evaluate env store parsers p w).1 })
    unfolding submit propose ◌>>=◌
    submit_promoted s p w found proposed verdict = rw (found, proposed, verdict)

    -- Where `Submit` stands behind the consensus: the version, the world, and what is left to do.
    pub record Decided (s : Process W) : Type 0 where
      pub p : Parameter
      pub world : W
      pub proposed_in : Db
      pub proposal : Proposed env req prev (view s.world) p proposed_in
      pub superseded : Promotes req prev (view s.world) (view world)
      pub same_id : superseded.id ≡ proposal.id
      pub ended :
          submit svc req s ≡ finish svc p (state_canonical, none) (record s { world = world })

    pub submit-Decided :
        (s : Process W)
        → validate_value_type parsers req.value req.value_type ≡ none
        → (store.get_parameter req.namespace req.key s.world).0 ≡ returns prev
        → prev.id ≢ ""
        → Decided s
    unfolding promote
    submit-Decided s valid found named =
        let w = (store.get_parameter req.namespace req.key s.world).1 in
        let (p, proposed, h) =
          (create_version-Proposed store cache env parsers contract clock apart
              (IsTaking-IsWritable taking) req prev (view s.world) named).run
            w (contract.get_reads req.namespace req.key s.world) in
        let w' = (create_version svc req (ok prev) w).1 in
        let valid' : validate_value_type parsers p.value p.value_type ≡ none =
          subst (λ q. validate_value_type parsers q.value q.value_type ≡ none) (sym h.version)
            valid in
        let (verdict, l) =
          evaluate-Lifecycle env store parsers contract clock taking p w' none valid' in
        record {
          p = p;
          world = (evaluate env store parsers p w').1;
          proposed_in = view w';
          proposal = h;
          superseded = promote env req prev p _ _ _ h l;
          same_id = refl;
          ended = submit_promoted s p w' found (ap (λ r. (r, w')) proposed) verdict;
        }
