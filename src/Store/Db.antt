-- ===== src/Store/Db.antt =====
-- What the store holds, abstractly: the versions and the events in the order of their insertion,
-- and the effect of each write on them.
use truthmetal.Base.{
  String, ◌≡◌, ◌⊎◌, Bool, false, ◌&&◌, List, [], ◌∷◌, ◌++◌, ◌==◌, All, if◌then◌else◌, map,
}
use truthmetal.Model.{Time, ParameterState, Parameter, LedgerEvent, state_canonical}

pub record Db : Type 0 where
  pub parameters : List Parameter
  pub events : List LedgerEvent

abbrev pub set_row : String → ParameterState → Time → Parameter → Parameter
set_row id state now p = if p.id == id then record p { state = state; updated_at = now } else p

unfoldable pub insert_parameter : Parameter → Db → Db
insert_parameter p db = record db { parameters = db.parameters ++ p ∷ [] }

unfoldable pub set_state : String → ParameterState → Time → Db → Db
set_state id state now db = record db { parameters = map (set_row id state now) db.parameters }

unfoldable pub add_event : LedgerEvent → Db → Db
add_event e db = record db { events = db.events ++ e ∷ [] }

-- The version is the canonical one of its namespace and key.
abbrev pub is_canonical_of : String → String → Parameter → Bool
is_canonical_of namespace key p =
    p.namespace == namespace && (p.key == key && p.state == state_canonical)

abbrev pub NoCanonical : String → String → Db → Type 0
NoCanonical namespace key db = All (λ p. is_canonical_of namespace key p ≡ false) db.parameters

-- `p` is among the rows.
abbrev pub Among : Parameter → List Parameter → Type 0
Among p [] = ⊥
Among p (q ∷ qs) = (p ≡ q) ⊎ Among p qs
