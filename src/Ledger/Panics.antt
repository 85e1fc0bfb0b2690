-- ===== src/Ledger/Panics.antt =====
-- `Submit` of a key that has no canonical version: `errors.As` panics on its target.
use truthmetal.Base.{String, ◌≡◌, refl, ap, inl, inr, true, false, List, [], ◌∷◌, All}
use truthmetal.Exec.{Error, Outcome, returns, fails, panics, errors_as, ◌>>=◌}
use truthmetal.Model.{Parameter, SubmitRequest}
use truthmetal.Store.Db.{Db, is_canonical_of, NoCanonical, Among}
use truthmetal.Store.Contract.{FoundCanonical, IsStore}
use truthmetal.Ledger.{Process, Service, next_version, create_version, propose, submit}

Among-absurd :
    (namespace key : String) (p : Parameter) (ps : List Parameter)
    → All (λ q. is_canonical_of namespace key q ≡ false) ps
    → is_canonical_of namespace key p ≡ true
    → Among p ps
    → ⊥
Among-absurd namespace key p [] h c a = a
Among-absurd namespace key p (q ∷ qs) (n, h) c (inl e) =
    cc (n, c, ap (is_canonical_of namespace key) e)
Among-absurd namespace key p (q ∷ qs) (n, h) c (inr a) = Among-absurd namespace key p qs h c a

-- The store's answer for a key without a canonical version is an error.
pub answer_fails :
    (namespace key : String) (db : Db) (r : Outcome Parameter)
    → FoundCanonical namespace key db r
    → NoCanonical namespace key db
    → (e : Error) × (r ≡ fails e)
answer_fails namespace key db (returns p) (a, c) n =
    absurd (Among-absurd namespace key p db.parameters n c a)
answer_fails namespace key db (fails e) f n = (e, refl)
answer_fails namespace key db panics f n = absurd f

module _ {W Doc : Type 0} (svc : Service W Doc) where
  -- Whatever the error of the lookup of the canonical version, `Submit` panics, and it has
  -- done nothing but this lookup.
  pub submit_error :
      (req : SubmitRequest) (s : Process W) (e : Error)
      → (svc.store.get_parameter req.namespace req.key s.world).0 ≡ fails e
      → submit svc req s
        ≡ (panics, record s { world = (svc.store.get_parameter req.namespace req.key s.world).1 })
  unfolding submit propose create_version next_version ◌>>=◌ errors_as
  submit_error req s e h = rw h

  module _ {view : W → Db} (contract : IsStore svc.store view) where
    -- If the store keeps its contract and holds no canonical version of the requested key,
    -- `Submit` panics, and what the store holds and the channel are as before.
    pub submit_of_new_key :
        (req : SubmitRequest) (s : Process W)
        → NoCanonical req.namespace req.key (view s.world)
        → ((submit svc req s).0 ≡ panics)
          × (view (submit svc req s).1.world ≡ view s.world)
          × ((submit svc req s).1.events ≡ s.events)
    submit_of_new_key req s n =
        let found = contract.get req.namespace req.key s.world in
        let (e, failed) = answer_fails req.namespace req.key (view s.world) _ found n in
        let q = submit_error req s e failed in
        (rw q, rw q (contract.get_reads req.namespace req.key s.world), rw q)
