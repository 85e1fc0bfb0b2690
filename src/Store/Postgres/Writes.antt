-- ===== src/Store/Postgres/Writes.antt =====
-- The versions and events of the tables, and what the statements of `PostgresStore` do to them.
use mathlib.Core.List
use truthmetal.Base.{
  String, ◌≡◌, refl, sym, ap, ap₂, ◌∙◌, inl, inr, Bool, true, false, ◌&&◌, Option, none, some, List,
  [], ◌∷◌, ◌++◌, map, ok, ◌==◌, if◌then◌else◌, string_dec, Bool-cases, Option-cases, ==_iff,
}
use truthmetal.Exec.{Error, returns, panics}
use truthmetal.Model.{Time, Parameter, LedgerEvent, StringMap}
use truthmetal.Store.Db.{Db, insert_parameter, set_state, set_row, add_event}
use truthmetal.Store.Sql.{text}
use truthmetal.Store.Sql.Tables.{ParameterRow, EventRow, Tables, parameter_column}
use truthmetal.Store.Sql.Meaning.{after, projected, satisfies}
use truthmetal.Store.Postgres.{
  update_statement, insert_parameter_statement, insert_event_statement, parameter_columns,
}
use truthmetal.Store.Postgres.Scan.{MapJson, or_empty_map, scan_parameter}

abbrev pub or_empty_text : Option String → String
or_empty_text none = ""
or_empty_text (some s) = s

-- The version and the event of a row.
module _ {Doc : Type 0} (map_json : MapJson Doc) where
  abbrev pub parameter_at : ParameterRow Doc → Parameter
  parameter_at r = record {
    id = r.id;
    key = r.key;
    value = r.value;
    value_type = r.value_type;
    namespace = r.namespace;
    source = r.source;
    source_ref = r.source_ref;
    version = r.version;
    previous_version_id = or_empty_text r.previous_version_id;
    state = r.state;
    metadata = or_empty_map (map_json.unmarshal r.metadata);
    created_at = r.created_at;
    updated_at = r.updated_at;
  }

  abbrev pub event_at : EventRow Doc → LedgerEvent
  event_at r = record {
    id = r.id;
    parameter_id = r.parameter_id;
    event_type = r.event_type;
    from_state = r.from_state;
    to_state = r.to_state;
    actor = r.actor;
    reason = r.reason;
    context = or_empty_map (map_json.unmarshal r.context);
    occurred_at = r.occurred_at;
  }

  abbrev pub db_of : Tables Doc → Db
  db_of t = record {
    parameters = map parameter_at t.parameters;
    events = map event_at t.ledger_events;
  }

-- A map that was marshalled is read back as it was.
pub record ReadsBack {Doc : Type 0} (map_json : MapJson Doc) : Type 0 where
  pub read_back :
      (m : StringMap) (d : Doc) → map_json.marshal m ≡ returns d → map_json.unmarshal d ≡ some m
  pub marshal_answers : (m : StringMap) (p : map_json.marshal m ≡ panics) → ⊥

module _ {Doc : Type 0} (map_json : MapJson Doc) (scan_error : Error) where
  pub scan_parameter-projected :
      (r : ParameterRow Doc)
      → scan_parameter scan_error map_json (projected parameter_column parameter_columns r)
        ≡ ok (parameter_at map_json r)
  unfolding scan_parameter string_dec
  scan_parameter-projected r = elim (Option-cases r.previous_version_id) [
    | inl e ↦ rw e
    | inr (s, e) ↦ rw e
  ]

pub some_injective : {A : Type 0} (a b : A) → some a ≡ some b → a ≡ b
some_injective a b e = cc

pub and_true : (b : Bool) → (b && true) ≡ b
and_true true = refl
and_true false = refl

module _ {Doc : Type 0} where
  pub id_condition :
      (id : String) (r : ParameterRow Doc)
      → satisfies (parameter_column r) (("id", text id) ∷ []) ≡ (r.id == id)
  unfolding string_dec
  id_condition id r = and_true _

module _ {Doc : Type 0} (map_json : MapJson Doc) where
  row_of : Parameter → Doc → Option String → ParameterRow Doc
  row_of p meta previous = record {
    id = p.id;
    key = p.key;
    value = p.value;
    value_type = p.value_type;
    namespace = p.namespace;
    source = p.source;
    source_ref = p.source_ref;
    version = p.version;
    previous_version_id = previous;
    state = p.state;
    metadata = meta;
    created_at = p.created_at;
    updated_at = p.updated_at;
  }

  inserted_first :
      (p : Parameter) (meta : Doc) (now : Time) (t : Tables Doc)
      → p.previous_version_id ≡ ""
      → after now (insert_parameter_statement p meta) t
        ≡ some (record t { parameters = t.parameters ++ row_of p meta none ∷ [] })
  unfolding row_of string_dec
  inserted_first p meta now t e = rw e

  inserted_next :
      (p : Parameter) (meta : Doc) (now : Time) (t : Tables Doc)
      → (p.previous_version_id == "") ≡ false
      → after now (insert_parameter_statement p meta) t
        ≡ some (record t {
          parameters = t.parameters ++ row_of p meta (some p.previous_version_id) ∷ [];
        })
  unfolding row_of string_dec
  inserted_next p meta now t e = rw e

  row_at :
      (p : Parameter) (meta : Doc) (previous : Option String)
      → map_json.unmarshal meta ≡ some p.metadata
      → or_empty_text previous ≡ p.previous_version_id
      → parameter_at map_json (row_of p meta previous) ≡ p
  unfolding row_of
  row_at p meta previous m e = rw (m, e)

  inserted_row :
      (p : Parameter) (meta : Doc) (t t' : Tables Doc) (previous : Option String)
      → map_json.unmarshal meta ≡ some p.metadata
      → or_empty_text previous ≡ p.previous_version_id
      → some (record t { parameters = t.parameters ++ row_of p meta previous ∷ [] }) ≡ some t'
      → db_of map_json t' ≡ insert_parameter p (db_of map_json t)
  unfolding insert_parameter
  inserted_row p meta t t' previous m q e =
      let same : record t { parameters = t.parameters ++ row_of p meta previous ∷ [] } ≡ t' = cc in
      let rows =
        List.map-append (parameter_at map_json) t.parameters (row_of p meta previous ∷ [])
        ∙ ap (λ x. map (parameter_at map_json) t.parameters ++ x ∷ [])
            (row_at p meta previous m q) in
      rw (← same) (ap (λ x. record (db_of map_json t) { parameters = x }) rows)

  pub inserted :
      (p : Parameter) (meta : Doc) (now : Time) (t t' : Tables Doc)
      → map_json.unmarshal meta ≡ some p.metadata
      → after now (insert_parameter_statement p meta) t ≡ some t'
      → db_of map_json t' ≡ insert_parameter p (db_of map_json t)
  inserted p meta now t t' m e = elim (Bool-cases (p.previous_version_id == "")) [
    | inl first ↦
        inserted_row p meta t t' none m (sym ((==_iff p.previous_version_id "").0 first))
          (sym (inserted_first p meta now t ((==_iff p.previous_version_id "").0 first)) ∙ e)
    | inr next ↦
        inserted_row p meta t t' (some p.previous_version_id) m refl
          (sym (inserted_next p meta now t next) ∙ e)
  ]

  row_updated :
      (id state : String) (now : Time) (r : ParameterRow Doc)
      → parameter_at map_json (
          if satisfies (parameter_column r) (("id", text id) ∷ [])
          then record r { state = state; updated_at = now }
          else r)
        ≡ set_row id state now (parameter_at map_json r)
  row_updated id state now r =
      rw (id_condition id r) (elim (Bool-cases (r.id == id)) [ inl t ↦ rw t | inr f ↦ rw f ])

  rows_updated :
      (id state : String) (now : Time) (rows : List (ParameterRow Doc))
      → map (parameter_at map_json) (
          map
            (λ r.
              if satisfies (parameter_column r) (("id", text id) ∷ [])
              then record r { state = state; updated_at = now }
              else r)
            rows)
        ≡ map (set_row id state now) (map (parameter_at map_json) rows)
  rows_updated id state now [] = refl
  rows_updated id state now (r ∷ rows) =
      ap₂ (λ p ps. p ∷ ps) (row_updated id state now r) (rows_updated id state now rows)

  pub updated :
      (id state : String) (now : Time) (t t' : Tables Doc)
      → after now (update_statement id state) t ≡ some t'
      → db_of map_json t' ≡ set_state id state now (db_of map_json t)
  unfolding set_state string_dec
  updated id state now t t' e =
      let same = some_injective _ _ e in
      rw (← same) (
        ap (λ x. record (db_of map_json t) { parameters = x })
          (rows_updated id state now t.parameters))

  pub appended :
      (e : LedgerEvent) (context : Doc) (now : Time) (t t' : Tables Doc)
      → map_json.unmarshal context ≡ some e.context
      → after now (insert_event_statement e context) t ≡ some t'
      → db_of map_json t' ≡ add_event e (db_of map_json t)
  unfolding add_event string_dec
  appended e context now t t' m h =
      let same = some_injective _ _ h in
      rw (← same) (
        ap (λ x. record (db_of map_json t) { events = x })
          (List.map-append (event_at map_json) t.ledger_events _
            ∙ ap (λ x. map (event_at map_json) t.ledger_events ++ record e { context = x } ∷ [])
                (ap or_empty_map m)))
