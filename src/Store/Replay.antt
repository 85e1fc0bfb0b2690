-- ===== src/Store/Replay.antt =====
-- The states of the versions as the ledger tells them, and the writes between which the two agree.
use truthmetal.Base.{
  String, ◌≡◌, ◌≢◌, refl, sym, ◌∙◌, inl, inr, List, [], ◌∷◌, ◌++◌, map, arith, All, Bool-cases,
  ◌==◌, ==_iff, if◌then◌else◌,
}
use truthmetal.Model.{Time, ParameterState, Parameter, LedgerEvent}
use truthmetal.Store.Db.{Db, insert_parameter, set_row, set_state, add_event}

-- The state that the events lead a version to, from a given one.
abbrev pub replay : String → ParameterState → List LedgerEvent → ParameterState
replay id state [] = state
replay id state (e ∷ es) = replay id (if e.parameter_id == id then e.to_state else state) es

-- The state of each version is the one to which the last event about it leads.
abbrev pub Told : Db → Type 0
Told db = All (λ p. replay p.id "" db.events ≡ p.state) db.parameters

-- The same but for a version that has gone to a state which the ledger does not tell yet.
abbrev pub Pending : String → ParameterState → Db → Type 0
Pending id state db =
    All
      (λ p.
        ((e : p.id ≡ id) → p.state ≡ state)
        × ((n : p.id ≢ id) → replay p.id "" db.events ≡ p.state))
      db.parameters

replay-append :
    (id : String) (state : ParameterState) (es : List LedgerEvent) (e : LedgerEvent)
    → replay id state (es ++ e ∷ [])
      ≡ (if e.parameter_id == id then e.to_state else replay id state es)
replay-append id state [] e = refl
replay-append id state (x ∷ es) e =
    replay-append id (if x.parameter_id == id then x.to_state else state) es e

set_rows :
    (id : String) (state : ParameterState) (now : Time) (events : List LedgerEvent)
    (ps : List Parameter)
    → All (λ p. replay p.id "" events ≡ p.state) ps
    → All
        (λ p.
          ((e : p.id ≡ id) → p.state ≡ state) × ((n : p.id ≢ id) → replay p.id "" events ≡ p.state))
        (map (set_row id state now) ps)
set_rows id state now events [] h = tt
set_rows id state now events (p ∷ ps) (t, h) = (row, set_rows id state now events ps h)
  where
    row :
        (((set_row id state now p).id ≡ id) → (set_row id state now p).state ≡ state)
        × (((set_row id state now p).id ≢ id)
            → replay (set_row id state now p).id "" events ≡ (set_row id state now p).state)
    row = elim (Bool-cases (p.id == id)) [
      | inl same ↦ rw same (λ e. refl, λ n. absurd (n ((==_iff p.id id).0 same)))
      | inr other ↦ rw other (λ e. ground arith, λ n. t)
    ]

pub set_state-Pending :
    (id : String) (state : ParameterState) (now : Time) (d : Db)
    → Told d
    → Pending id state (set_state id state now d)
unfolding set_state
set_state-Pending id state now d h = set_rows id state now d.events d.parameters h

insert_rows :
    (p : Parameter) (events : List LedgerEvent) (ps : List Parameter)
    → All (λ q. q.id ≢ p.id) ps
    → All (λ q. replay q.id "" events ≡ q.state) ps
    → All
        (λ q.
          ((e : q.id ≡ p.id) → q.state ≡ p.state)
          × ((n : q.id ≢ p.id) → replay q.id "" events ≡ q.state))
        (ps ++ p ∷ [])
insert_rows p events [] fresh h = ((λ e. refl, λ n. absurd (n refl)), tt)
insert_rows p events (q ∷ qs) (n, fresh) (t, h) =
    ((λ e. absurd (n e), λ n. t), insert_rows p events qs fresh h)

pub insert-Pending :
    (p : Parameter) (d : Db)
    → All (λ q. q.id ≢ p.id) d.parameters
    → Told d
    → Pending p.id p.state (insert_parameter p d)
unfolding insert_parameter
insert-Pending p d fresh h = insert_rows p d.events d.parameters fresh h

told_rows :
    (e : LedgerEvent) (events : List LedgerEvent) (ps : List Parameter)
    → All
        (λ p.
          ((same : p.id ≡ e.parameter_id) → p.state ≡ e.to_state)
          × ((n : p.id ≢ e.parameter_id) → replay p.id "" events ≡ p.state))
        ps
    → All (λ p. replay p.id "" (events ++ e ∷ []) ≡ p.state) ps
told_rows e events [] h = tt
told_rows e events (p ∷ ps) (t, h) = (row, told_rows e events ps h)
  where
    row : replay p.id "" (events ++ e ∷ []) ≡ p.state
    row = replay-append p.id "" events e ∙ elim (Bool-cases (e.parameter_id == p.id)) [
      | inl same ↦ rw same (sym (t.0 (sym ((==_iff e.parameter_id p.id).0 same))))
      | inr other ↦ rw other (t.1 (λ same. ground arith))
    ]

-- The event that tells the state.
pub add_event-Told :
    (e : LedgerEvent) (d : Db) → Pending e.parameter_id e.to_state d → Told (add_event e d)
unfolding add_event
add_event-Told e d h = told_rows e d.events d.parameters h
