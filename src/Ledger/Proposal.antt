-- ===== src/Ledger/Proposal.antt =====
-- What `Submit` writes before the consensus, for a key that has a canonical version.
use truthmetal.Base.{String, ◌≡◌, ◌≢◌, refl, sym, subst, [], ◌∷◌, ◌++◌, map, ok}
use truthmetal.Base.Int.{pos, add64}
use truthmetal.Exec.{Env, IsEnv, returns}
use truthmetal.Exec.Triples.{Returns, Returns-bind, Returns-pure_bind, Returns-given}
use truthmetal.Model.{Time, Parameter, SubmitRequest, state_revoked}
use truthmetal.Store.{Store}
use truthmetal.Store.Db.{Db, set_row}
use truthmetal.Store.Contract.{IsStore}
use truthmetal.Store.Writable.{IsWritable}
use truthmetal.Cache.{Cache, IsApart}
use truthmetal.Consensus.{Parsers}
use truthmetal.Consensus.Rejection.{now-Returns}
use truthmetal.Ledger.{Service, new_service, submitted_version, next_version, create_version}
use truthmetal.Ledger.Stages.{
  submission_trail, Stage, create-Stage, record_submission-Stage, supersede-Revoked,
}

-- The version that `Submit` creates beside the previous one.
abbrev pub successor : SubmitRequest → Parameter → String → Time → Parameter
successor req prev id now = submitted_version req id now (add64 prev.version (pos 1), prev.id)

-- An id that the generator gives in some state.
abbrev pub Generated : {W : Type 0} → Env W → String → Type 0
Generated {W} env id = (w : W) × ((env.new_uuid w).0 ≡ returns id)

uuid-Generated :
    {W D : Type 0} {env : Env W} {view : W → D} (clock : IsEnv env view) (P : D → Type 0)
    → Returns view P env.new_uuid (λ id d. Generated env id × P d)
uuid-Generated clock P = record {
  run =
      λ w h. let (id, e) = clock.uuid w in (id, e, ((w, e), subst P (sym (clock.uuid_reads w)) h));
}

-- What `create_version` leaves, and the version that it returns.
pub record Proposed {W : Type 0} (env : Env W) (req : SubmitRequest) (prev : Parameter)
    (before : Db) (p : Parameter) (after : Db) : Type 0 where
  pub id : String
  pub generated : Generated env id
  pub created : Time
  pub revoked : Time
  pub version : p ≡ successor req prev id created
  pub stage :
      Stage before
        (map
          (set_row prev.id state_revoked revoked)
          (before.parameters ++ successor req prev id created ∷ []))
        (submission_trail prev.id id)
        after

module _ {W Doc : Type 0} (store : Store W) (cache : Cache W Doc) (env : Env W) (parsers : Parsers)
    {view : W → Db} (contract : IsStore store view) (clock : IsEnv env view)
    (apart : IsApart cache.client view) (writable : IsWritable store) where
  abbrev svc : Service W Doc
  svc = new_service store cache env parsers

  module _ (req : SubmitRequest) (prev : Parameter) where
    pub create_version-Proposed :
        (before : Db)
        → prev.id ≢ ""
        → Returns view
            (λ d. d ≡ before)
            (create_version svc req (ok prev))
            (Proposed env req prev before)
    unfolding create_version next_version
    create_version-Proposed before named =
        Returns-pure_bind (add64 prev.version (pos 1), prev.id) _
          (Returns-bind (now-Returns clock _) λ now. Returns-bind (uuid-Generated clock _) λ id.
            Returns-given λ g.
              Returns-bind
                (create-Stage store cache env parsers contract clock apart writable req prev before
                  (successor req prev id now))
                λ _.
                  Returns-bind
                    (record_submission-Stage store cache env parsers contract clock apart writable
                      req prev before (successor req prev id now) now)
                    λ _.
                      Returns-bind
                        (supersede-Revoked store cache env parsers contract clock apart writable req
                          prev before (successor req prev id now) now named)
                        λ _. record {
                          run = λ w (t, st). (
                            successor req prev id now,
                            refl,
                            record {
                              id = id;
                              generated = g;
                              created = now;
                              revoked = t;
                              version = refl;
                              stage = st;
                            },
                          );
                        })
