-- ===== src/Store/Canonical.antt =====
-- Which writes keep a key without a canonical version, or with at most the one of a given id.
use truthmetal.Base.{
  String, ◌≡◌, ◌≢◌, inl, inr, true, false, List, [], ◌∷◌, ◌++◌, map, arith, All, Bool-cases,
}
use truthmetal.Model.{Time, ParameterState, Parameter, LedgerEvent, state_canonical}
use truthmetal.Store.Db.{
  Db, insert_parameter, set_row, set_state, add_event, is_canonical_of, NoCanonical,
}

module _ (namespace key : String) where
  -- A canonical version of the key, if there is one, has the given id.
  abbrev pub OnlyCanonical : String → Db → Type 0
  OnlyCanonical id db =
      All (λ p. (c : is_canonical_of namespace key p ≡ true) → p.id ≡ id) db.parameters

  rows_insert :
      (p : Parameter) (ps : List Parameter)
      → p.state ≢ state_canonical
      → All (λ q. is_canonical_of namespace key q ≡ false) ps
      → All (λ q. is_canonical_of namespace key q ≡ false) (ps ++ p ∷ [])
  rows_insert p [] n h = (ground arith, tt)
  rows_insert p (q ∷ qs) n (c, h) = (c, rows_insert p qs n h)

  rows_set :
      (id : String) (state : ParameterState) (now : Time) (ps : List Parameter)
      → state ≢ state_canonical
      → All (λ q. is_canonical_of namespace key q ≡ false) ps
      → All (λ q. is_canonical_of namespace key q ≡ false) (map (set_row id state now) ps)
  rows_set id state now [] n h = tt
  rows_set id state now (p ∷ ps) n (c, h) = (ground arith, rows_set id state now ps n h)

  only_insert :
      (id : String) (p : Parameter) (ps : List Parameter)
      → p.state ≢ state_canonical
      → All (λ q. (c : is_canonical_of namespace key q ≡ true) → q.id ≡ id) ps
      → All (λ q. (c : is_canonical_of namespace key q ≡ true) → q.id ≡ id) (ps ++ p ∷ [])
  only_insert id p [] n h = (λ c. absurd (ground arith), tt)
  only_insert id p (q ∷ qs) n (c, h) = (c, only_insert id p qs n h)

  only_revoke :
      (id : String) (state : ParameterState) (now : Time) (ps : List Parameter)
      → state ≢ state_canonical
      → All (λ q. (c : is_canonical_of namespace key q ≡ true) → q.id ≡ id) ps
      → All (λ q. is_canonical_of namespace key q ≡ false) (map (set_row id state now) ps)
  only_revoke id state now [] n h = tt
  only_revoke id state now (p ∷ ps) n (c, h) = (row, only_revoke id state now ps n h)
    where
      row : is_canonical_of namespace key (set_row id state now p) ≡ false
      row = elim (Bool-cases (is_canonical_of namespace key p)) [
        | inl t ↦ ground (arith, c t)
        | inr f ↦ ground arith
      ]

  pub NoCanonical-insert :
      (p : Parameter) (d : Db)
      → p.state ≢ state_canonical
      → NoCanonical namespace key d
      → NoCanonical namespace key (insert_parameter p d)
  unfolding insert_parameter
  NoCanonical-insert p d n h = rows_insert p d.parameters n h

  pub NoCanonical-set_state :
      (id : String) (state : ParameterState) (now : Time) (d : Db)
      → state ≢ state_canonical
      → NoCanonical namespace key d
      → NoCanonical namespace key (set_state id state now d)
  unfolding set_state
  NoCanonical-set_state id state now d n h = rows_set id state now d.parameters n h

  pub NoCanonical-add_event :
      (e : LedgerEvent) (d : Db)
      → NoCanonical namespace key d
      → NoCanonical namespace key (add_event e d)
  unfolding add_event
  NoCanonical-add_event e d h = h

  pub OnlyCanonical-insert :
      (id : String) (p : Parameter) (d : Db)
      → p.state ≢ state_canonical
      → OnlyCanonical id d
      → OnlyCanonical id (insert_parameter p d)
  unfolding insert_parameter
  OnlyCanonical-insert id p d n h = only_insert id p d.parameters n h

  pub OnlyCanonical-add_event :
      (id : String) (e : LedgerEvent) (d : Db)
      → OnlyCanonical id d
      → OnlyCanonical id (add_event e d)
  unfolding add_event
  OnlyCanonical-add_event id e d h = h

  -- The one canonical version of a key leaves the state, and the key has none.
  pub NoCanonical-of_leaving :
      (id : String) (state : ParameterState) (now : Time) (d : Db)
      → state ≢ state_canonical
      → OnlyCanonical id d
      → NoCanonical namespace key (set_state id state now d)
  unfolding set_state
  NoCanonical-of_leaving id state now d n h = only_revoke id state now d.parameters n h
