-- ===== src/Store/Typed.antt =====
-- Canonical versions whose values passed a check, and which writes keep it so.
use truthmetal.Base.{
  String, ◌≡◌, ◌≢◌, ◌⊎◌, refl, sym, ◌∙◌, inl, inr, List, [], ◌∷◌, ◌++◌, map, arith, All, Bool-cases,
  ◌==◌, ==_iff,
}
use truthmetal.Exec.Keeps.{IsPreorder}
use truthmetal.Model.{Time, ParameterState, Parameter, LedgerEvent, state_canonical}
use truthmetal.Store.Db.{Db, insert_parameter, set_row, set_state, add_event}

-- What holds before holds after.
abbrev pub Upholds : (Db → Type 0) → Db → Db → Type 0
Upholds P d e = P d → P e

pub Upholds-preorder : (P : Db → Type 0) → IsPreorder (Upholds P)
Upholds-preorder P = record { reflexive = λ d h. h; transitive = λ d e f h k p. k (h p) }

-- Some row has the id.
abbrev pub HasId : String → List Parameter → Type 0
HasId id [] = ⊥
HasId id (q ∷ qs) = (q.id ≡ id) ⊎ HasId id qs

-- A version that was created: its id is in the table, and the rows with it have its value.
module _ (p : Parameter) where
  abbrev pub AllStored : List Parameter → Type 0
  AllStored = All (λ q. (e : q.id ≡ p.id) → (q.value ≡ p.value) × (q.value_type ≡ p.value_type))

  abbrev pub Stored : Db → Type 0
  Stored db = AllStored db.parameters × HasId p.id db.parameters

  stored_set :
      (id : String) (state : ParameterState) (now : Time) (ps : List Parameter)
      → AllStored ps
      → AllStored (map (set_row id state now) ps)
  stored_set id state now [] h = tt
  stored_set id state now (q ∷ qs) (t, h) = (row, stored_set id state now qs h)
    where
      row :
          (set_row id state now q).id ≡ p.id
          → ((set_row id state now q).value ≡ p.value)
            × ((set_row id state now q).value_type ≡ p.value_type)
      row = elim (Bool-cases (q.id == id)) [ inl same ↦ rw same t | inr other ↦ rw other t ]

  set-HasId :
      (id : String) (state : ParameterState) (now : Time) (ps : List Parameter)
      → HasId p.id ps
      → HasId p.id (map (set_row id state now) ps)
  set-HasId id state now [] h = h
  set-HasId id state now (q ∷ qs) (inl e) = inl (ground arith)
  set-HasId id state now (q ∷ qs) (inr h) = inr (set-HasId id state now qs h)

  append-HasId : (q : Parameter) (ps : List Parameter) → HasId p.id ps → HasId p.id (ps ++ q ∷ [])
  append-HasId q [] h = absurd h
  append-HasId q (r ∷ rs) (inl e) = inl e
  append-HasId q (r ∷ rs) (inr h) = inr (append-HasId q rs h)

  last-HasId : (ps : List Parameter) → HasId p.id (ps ++ p ∷ [])
  last-HasId [] = inl refl
  last-HasId (q ∷ qs) = inr (last-HasId qs)

  stored_last : (ps : List Parameter) → All (λ q. q.id ≢ p.id) ps → AllStored (ps ++ p ∷ [])
  stored_last [] h = (λ e. (refl, refl), tt)
  stored_last (q ∷ qs) (n, h) = (λ e. absurd (n e), stored_last qs h)

  stored_beside :
      (q : Parameter) (ps : List Parameter) → q.id ≢ p.id → AllStored ps → AllStored (ps ++ q ∷ [])
  stored_beside q [] n h = (λ e. absurd (n e), tt)
  stored_beside q (r ∷ rs) n (t, h) = (t, stored_beside q rs n h)

  HasId-ne :
      (q : Parameter) (ps : List Parameter)
      → All (λ r. r.id ≢ q.id) ps
      → HasId p.id ps
      → q.id ≢ p.id
  HasId-ne q [] fresh h e = h
  HasId-ne q (r ∷ rs) (n, fresh) (inl same) e = n (same ∙ sym e)
  HasId-ne q (r ∷ rs) (n, fresh) (inr h) e = HasId-ne q rs fresh h e

  -- A version that is created under a new id leaves the others as they are stored.
  pub Stored-insert :
      (q : Parameter) (d : Db)
      → All (λ r. r.id ≢ q.id) d.parameters
      → Upholds Stored d (insert_parameter q d)
  unfolding insert_parameter
  Stored-insert q d fresh (h, k) = (
    stored_beside q d.parameters (HasId-ne q d.parameters fresh k) h,
    append-HasId q d.parameters k,
  )

  pub Stored-set_state :
      (id : String) (state : ParameterState) (now : Time) (d : Db)
      → Upholds Stored d (set_state id state now d)
  unfolding set_state
  Stored-set_state id state now d (h, k) =
      (stored_set id state now d.parameters h, set-HasId id state now d.parameters k)

  pub Stored-add_event : (e : LedgerEvent) (d : Db) → Upholds Stored d (add_event e d)
  unfolding add_event
  Stored-add_event e d h = h

-- `Passed` says of a value and its type that they fit.
module _ (Passed : String → String → Type 0) where
  abbrev pub AllTyped : List Parameter → Type 0
  AllTyped = All (λ q. (c : q.state ≡ state_canonical) → Passed q.value q.value_type)

  abbrev pub CanonicalTyped : Db → Type 0
  CanonicalTyped db = AllTyped db.parameters

  typed_insert :
      (p : Parameter) (ps : List Parameter)
      → p.state ≢ state_canonical
      → AllTyped ps
      → AllTyped (ps ++ p ∷ [])
  typed_insert p [] n h = (λ c. absurd (n c), tt)
  typed_insert p (q ∷ qs) n (t, h) = (t, typed_insert p qs n h)

  typed_set :
      (id : String) (state : ParameterState) (now : Time) (ps : List Parameter)
      → state ≢ state_canonical
      → AllTyped ps
      → AllTyped (map (set_row id state now) ps)
  typed_set id state now [] n h = tt
  typed_set id state now (q ∷ qs) n (t, h) = (row, typed_set id state now qs n h)
    where
      row :
          (set_row id state now q).state ≡ state_canonical
          → Passed (set_row id state now q).value (set_row id state now q).value_type
      row = elim (Bool-cases (q.id == id)) [
        | inl same ↦ rw same (λ c. absurd (n c))
        | inr other ↦ rw other t
      ]

  pub CanonicalTyped-insert :
      (p : Parameter) (d : Db)
      → p.state ≢ state_canonical
      → Upholds CanonicalTyped d (insert_parameter p d)
  unfolding insert_parameter
  CanonicalTyped-insert p d n h = typed_insert p d.parameters n h

  pub CanonicalTyped-set_state :
      (id : String) (state : ParameterState) (now : Time) (d : Db)
      → state ≢ state_canonical
      → Upholds CanonicalTyped d (set_state id state now d)
  unfolding set_state
  CanonicalTyped-set_state id state now d n h = typed_set id state now d.parameters n h

  pub CanonicalTyped-add_event :
      (e : LedgerEvent) (d : Db) → Upholds CanonicalTyped d (add_event e d)
  unfolding add_event
  CanonicalTyped-add_event e d h = h

  module _ (p : Parameter) where
    abbrev pub Evaluable : Db → Type 0
    Evaluable db = CanonicalTyped db × Stored p db

    typed_promote :
        (now : Time) (ps : List Parameter)
        → Passed p.value p.value_type
        → AllTyped ps
        → AllStored p ps
        → AllTyped (map (set_row p.id state_canonical now) ps)
    typed_promote now [] passed h k = tt
    typed_promote now (q ∷ qs) passed (t, h) (u, k) = (row, typed_promote now qs passed h k)
      where
        row :
            (set_row p.id state_canonical now q).state ≡ state_canonical
            → Passed
                (set_row p.id state_canonical now q).value
                (set_row p.id state_canonical now q).value_type
        row = elim (Bool-cases (q.id == p.id)) [
          | inl same ↦
              (let fits = u ((==_iff q.id p.id).0 same) in rw (same, fits.0, fits.1) (λ c. passed))
          | inr other ↦ rw other t
        ]

    -- A version that is created under a new id is evaluable.
    pub Evaluable-insert :
        (d : Db)
        → p.state ≢ state_canonical
        → All (λ q. q.id ≢ p.id) d.parameters
        → CanonicalTyped d
        → Evaluable (insert_parameter p d)
    unfolding insert_parameter
    Evaluable-insert d n fresh h = (
      typed_insert p d.parameters n h,
      (stored_last p d.parameters fresh, last-HasId p d.parameters),
    )

    pub Evaluable-set_state :
        (id : String) (state : ParameterState) (now : Time) (d : Db)
        → state ≢ state_canonical
        → Upholds Evaluable d (set_state id state now d)
    unfolding set_state
    Evaluable-set_state id state now d n (h, k) =
        (typed_set id state now d.parameters n h, Stored-set_state p id state now d k)

    pub Evaluable-promote :
        (now : Time) (d : Db)
        → Passed p.value p.value_type
        → Upholds Evaluable d (set_state p.id state_canonical now d)
    unfolding set_state
    Evaluable-promote now d passed (h, k) = (
      typed_promote now d.parameters passed h k.0,
      Stored-set_state p p.id state_canonical now d k,
    )

    pub Evaluable-add_event : (e : LedgerEvent) (d : Db) → Upholds Evaluable d (add_event e d)
    unfolding add_event
    Evaluable-add_event e d h = h
