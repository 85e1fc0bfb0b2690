-- ===== src/Ledger/Stages.antt =====
-- The writes of `Submit` for a key that has a canonical version, up to the consensus.
use mathlib.Core.List
use mathlib.Core.List.{append_assoc, append-nil}
use Prim.Native.String
use truthmetal.Base.{
  String, ◌≡◌, ◌≢◌, refl, sym, ◌∙◌, subst, false, List, [], ◌∷◌, ◌++◌, map, arith, ◌==◌,
}
use truthmetal.Exec.{Env, IsEnv, ignore, Exec}
use truthmetal.Exec.Triples.{Returns, Returns-bind, Returns-ignore, Returns-imp}
use truthmetal.Model.{
  Time, Parameter, LedgerEvent, SubmitRequest, state_submitted, state_canonical, state_revoked,
  event_submitted, event_superseded,
}
use truthmetal.Model.States.{revoked≢canonical}
use truthmetal.Store.{Store}
use truthmetal.Store.Db.{Db, set_row, set_state, insert_parameter, add_event}
use truthmetal.Store.Contract.{IsStore, Sets}
use truthmetal.Store.Writable.{IsWritable, effect}
use truthmetal.Cache.{Cache, IsApart, invalidate_canonical}
use truthmetal.Consensus.{Parsers}
use truthmetal.Consensus.Rejection.{uuid-Returns}
use truthmetal.Consensus.Trail.{Transition, transition}
use truthmetal.Ledger.{Service, new_service, record_submission, append_superseded, supersede}
use truthmetal.Ledger.LostValue.{dropped_answer}

-- The transitions that precede the consensus.
abbrev pub submission_trail : String → String → List Transition
submission_trail prev_id id =
    record {
      parameter_id = id;
      event_type = event_submitted;
      from_state = "";
      to_state = state_submitted;
      reason = "new submission";
    }
    ∷ record {
      parameter_id = prev_id;
      event_type = event_superseded;
      from_state = state_canonical;
      to_state = state_revoked;
      reason = String.◌++◌ "superseded by version " id;
    }
    ∷ []

-- The rows are the given ones, and the ledger has grown by the transitions.
pub record Stage (before : Db) (rows : List Parameter) (trail : List Transition) (after : Db)
    : Type 0 where
  pub holds : after.parameters ≡ rows
  pub entries : List LedgerEvent
  pub ledger : after.events ≡ before.events ++ entries
  pub transitions : map transition entries ≡ trail

-- A step from each of a family of preconditions.
Returns-exists :
    {S D X A : Type 0} {view : S → D} {P : X → D → Type 0} {Q : A → D → Type 0} {m : Exec S A}
    → ((x : X) → Returns view (P x) m Q)
    → Returns view (λ d. (x : X) × P x d) m Q
Returns-exists k = record { run = λ s (x, p). (k x).run s p }

module _ {W Doc : Type 0} (store : Store W) (cache : Cache W Doc) (env : Env W) (parsers : Parsers)
    {view : W → Db} (contract : IsStore store view) (clock : IsEnv env view)
    (apart : IsApart cache.client view) (writable : IsWritable store) where
  abbrev svc : Service W Doc
  svc = new_service store cache env parsers

  module _ (req : SubmitRequest) (prev : Parameter) (before : Db) where
    pub create-Stage :
        (p : Parameter)
        → Returns view
            (λ d. d ≡ before)
            (store.create_parameter p)
            (λ _. Stage before (before.parameters ++ p ∷ []) [])
    unfolding insert_parameter
    create-Stage p = record {
      run = λ w h.
          let e = writable.creates p w in
          let x = effect (λ b a. a ≡ insert_parameter p b) _ _ _ tt (contract.create p w) e in
          (
            tt,
            e,
            record {
              holds = rw (x, h);
              entries = [];
              ledger = rw (x, h) (sym (append-nil before.events));
              transitions = refl;
            },
          );
    }

    append-Stage :
        {rows : List Parameter} {trail : List Transition} (v : LedgerEvent)
        → Returns view
            (Stage before rows trail)
            (store.append_event v)
            (λ _. Stage before rows (trail ++ transition v ∷ []))
    unfolding add_event
    append-Stage v = record {
      run = λ w h.
          let e = writable.appends v w in
          let x = effect (λ b a. a ≡ add_event v b) _ _ _ tt (contract.append v w) e in
          (
            tt,
            e,
            record {
              holds = rw x h.holds;
              entries = h.entries ++ v ∷ [];
              ledger = rw (x, h.ledger) (append_assoc before.events h.entries (v ∷ []));
              transitions = List.map-append transition h.entries (v ∷ []) ∙ rw h.transitions;
            },
          );
    }

    revoke-Stage :
        {rows : List Parameter} {trail : List Transition}
        → Returns view
            (Stage before rows trail)
            (store.update_parameter_state prev.id state_revoked)
            (λ _ d. (t : Time) × Stage before (map (set_row prev.id state_revoked t) rows) trail d)
    unfolding set_state
    revoke-Stage = record {
      run = λ w h.
          let e = writable.updates prev.id state_revoked w revoked≢canonical in
          let (t, x) =
            effect (Sets prev.id state_revoked) _ _ _ tt (contract.update prev.id state_revoked w)
              e in
          (
            tt,
            e,
            (
              t,
              record {
                holds = rw (x, h.holds);
                entries = h.entries;
                ledger = rw x h.ledger;
                transitions = h.transitions;
              },
            ),
          );
    }

    pub record_submission-Stage :
        {rows : List Parameter} (p : Parameter) (now : Time)
        → Returns view (Stage before rows []) (record_submission svc req p now) (λ _.
          Stage before rows (
            record {
              parameter_id = p.id;
              event_type = event_submitted;
              from_state = "";
              to_state = state_submitted;
              reason = "new submission";
            }
            ∷ []))
    unfolding record_submission
    record_submission-Stage p now = Returns-bind (uuid-Returns clock _) λ id. append-Stage _

    invalidate-Returns :
        (P : Db → Type 0)
        → Returns view P (ignore (invalidate_canonical cache req.namespace req.key)) (λ _. P)
    unfolding invalidate_canonical
    invalidate-Returns P = record {
      run = λ w h.
          (tt, dropped_answer _ (apart.del_answers _ w), subst P (sym (apart.del_reads _ w)) h);
    }

    -- What `supersede` leaves, with the time of the revocation.
    abbrev pub Revoked : Parameter → Db → Type 0
    Revoked p d =
        (t : Time) × Stage before
          (map (set_row prev.id state_revoked t) (before.parameters ++ p ∷ []))
          (submission_trail prev.id p.id) d

    pub supersede-Revoked :
        (p : Parameter) (now : Time)
        → prev.id ≢ ""
        → Returns view
            (Stage before (before.parameters ++ p ∷ []) (
              record {
                parameter_id = p.id;
                event_type = event_submitted;
                from_state = "";
                to_state = state_submitted;
                reason = "new submission";
              }
              ∷ []))
            (supersede svc req prev.id p now)
            (λ _. Revoked p)
    unfolding supersede append_superseded
    supersede-Revoked p now named =
        let other_id : (prev.id == "") ≡ false = ground arith in
        rw other_id (
          Returns-bind (Returns-ignore revoke-Stage (λ _ _ h. h)) λ _.
            Returns-bind
              (Returns-ignore
                (Returns-exists λ t.
                  Returns-imp (Returns-bind (uuid-Returns clock _) λ id. append-Stage _)
                    (λ _ _ h. (t, h)))
                (λ _ _ h. h))
              λ _. invalidate-Returns _)
