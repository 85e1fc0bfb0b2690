-- ===== src/Store/Postgres.antt =====
-- internal/store/postgres.go: `PostgresStore`, over a pool and the JSON encoding of string maps.
pub mod Scan
pub mod Writes
pub mod Reads
pub mod Refinement
pub mod Rejection
pub mod Pages
mod Scanned
use truthmetal.Base.{
  String, Bool, true, false, Option, none, some, List, [], ◌∷◌, Result, ok, err, ◌==◌,
  if◌then◌else◌,
}
use truthmetal.Base.Int.{ℤ}
use truthmetal.Exec.{Error, not_found, Outcome, returns, fails, Exec, pure, raise, lift, ◌>>=◌}
use truthmetal.Model.{ParameterState, Parameter, LedgerEvent, StringMap}
use truthmetal.Store.{Store}
use truthmetal.Store.Sql.{
  Value, text, number, time, json, null, Setting, to, to_now, Statement, insert_into, update,
  Selected, column, coalesce, Source, parameters, events_of_parameters, Order, Window, Select,
  Query, select, count, Rows, Pool,
}
use truthmetal.Store.Postgres.Scan.{MapJson, scan_parameter, scan_event, scan_total, scan_rows}

-- The columns that the queries of parameters select.
abbrev pub parameter_columns : List Selected
parameter_columns =
    column "id"
    ∷ column "key"
    ∷ column "value"
    ∷ column "value_type"
    ∷ column "namespace"
    ∷ column "source"
    ∷ column "source_ref"
    ∷ column "version"
    ∷ coalesce "previous_version_id" ""
    ∷ column "state"
    ∷ column "metadata"
    ∷ column "created_at"
    ∷ column "updated_at"
    ∷ []

-- The columns that the audit selects.
abbrev pub event_columns : List Selected
event_columns =
    column "id"
    ∷ column "parameter_id"
    ∷ column "event_type"
    ∷ column "from_state"
    ∷ column "to_state"
    ∷ column "actor"
    ∷ column "reason"
    ∷ column "context"
    ∷ column "occurred_at"
    ∷ []

module _ {Doc : Type 0} where
  abbrev pub nil_if_empty : String → Value Doc
  nil_if_empty s = if s == "" then null else text s

  abbrev pub insert_parameter_statement : Parameter → Doc → Statement Doc
  insert_parameter_statement p meta =
      insert_into "parameters"
        ("id" ∷ "key" ∷ "value" ∷ "value_type" ∷ "namespace" ∷ "source" ∷ "source_ref" ∷ "version"
          ∷ "previous_version_id" ∷ "state" ∷ "metadata" ∷ "created_at" ∷ "updated_at" ∷ [])
        (text p.id
          ∷ text p.key
          ∷ text p.value
          ∷ text p.value_type
          ∷ text p.namespace
          ∷ text p.source
          ∷ text p.source_ref
          ∷ number p.version
          ∷ nil_if_empty p.previous_version_id
          ∷ text p.state
          ∷ json meta
          ∷ time p.created_at
          ∷ time p.updated_at
          ∷ [])

  abbrev pub update_statement : String → ParameterState → Statement Doc
  update_statement id state =
      update "parameters" (("state", to (text state)) ∷ ("updated_at", to_now) ∷ [])
        (("id", text id) ∷ [])

  abbrev pub insert_event_statement : LedgerEvent → Doc → Statement Doc
  insert_event_statement e context =
      insert_into "ledger_events"
        ("id" ∷ "parameter_id" ∷ "event_type" ∷ "from_state" ∷ "to_state" ∷ "actor" ∷ "reason"
          ∷ "context" ∷ "occurred_at" ∷ [])
        (text e.id
          ∷ text e.parameter_id
          ∷ text e.event_type
          ∷ text e.from_state
          ∷ text e.to_state
          ∷ text e.actor
          ∷ text e.reason
          ∷ json context
          ∷ time e.occurred_at
          ∷ [])

  abbrev pub canonical_conditions : String → String → List (String × Value Doc)
  canonical_conditions namespace key =
      ("namespace", text namespace) ∷ ("key", text key) ∷ ("state", text "CANONICAL") ∷ []

  abbrev pub id_conditions : String → List (String × Value Doc)
  id_conditions id = ("id", text id) ∷ []

  abbrev pub canonical_query : String → String → Query Doc
  canonical_query namespace key = select (record {
    columns = parameter_columns;
    source = parameters;
    conditions = canonical_conditions namespace key;
    order = some (record { by = "version"; descending = true });
    window = some (record { limit = ℤ.pos 1; offset = ℤ.pos 0 });
  })

  abbrev pub id_query : String → Query Doc
  id_query id = select (record {
    columns = parameter_columns;
    source = parameters;
    conditions = id_conditions id;
    order = none;
    window = none;
  })

  abbrev pub key_conditions : String → String → List (String × Value Doc)
  key_conditions namespace key = ("namespace", text namespace) ∷ ("key", text key) ∷ []

  abbrev pub versions_query : String → String → Query Doc
  versions_query namespace key = select (record {
    columns = parameter_columns;
    source = parameters;
    conditions = key_conditions namespace key;
    order = some (record { by = "version"; descending = false });
    window = none;
  })

  abbrev pub total_query : String → String → Query Doc
  total_query namespace key = count events_of_parameters (key_conditions namespace key)

  abbrev pub page_query : String → String → ℤ → ℤ → Query Doc
  page_query namespace key limit offset = select (record {
    columns =
        column "id"
        ∷ column "parameter_id"
        ∷ column "event_type"
        ∷ column "from_state"
        ∷ column "to_state"
        ∷ column "actor"
        ∷ column "reason"
        ∷ column "context"
        ∷ column "occurred_at"
        ∷ [];
    source = events_of_parameters;
    conditions = key_conditions namespace key;
    order = some (record { by = "occurred_at"; descending = true });
    window = some (record { limit = limit; offset = offset });
  })

-- The end of a function that scans its answer.
abbrev pub outcome : {A : Type 0} → Result Error A → Outcome A
outcome (ok a) = returns a
outcome (err e) = fails e

-- `rows.Err()` behind the loop over the rows.
abbrev pub ended_with : {A : Type 0} → Option Error → A → Outcome A
ended_with none a = returns a
ended_with (some e) a = fails e

module _ {W Doc : Type 0} (pool : Pool W Doc) (map_json : MapJson Doc) where
  -- `scanParameter(row)`, where `none` is `pgx.ErrNoRows`.
  pub scanned : Option (List (Value Doc)) → Outcome Parameter
  scanned none = fails (not_found "parameter")
  scanned (some row) = outcome (scan_parameter pool.scan_error map_json row)

  create_parameter : Parameter → Exec W (Unit {0})
  create_parameter p = do
    meta ← lift (map_json.marshal p.metadata)
    pool.exec (insert_parameter_statement p meta)

  get_parameter : String → String → Exec W Parameter
  unfolding scanned
  get_parameter namespace key = do
    row ← pool.query_row (canonical_query namespace key)
    lift (scanned row)

  get_parameter_by_id : String → Exec W Parameter
  unfolding scanned
  get_parameter_by_id id = do row ← pool.query_row (id_query id); lift (scanned row)

  update_parameter_state : String → ParameterState → Exec W (Unit {0})
  update_parameter_state id state = pool.exec (update_statement id state)

  list_parameter_versions : String → String → Exec W (List Parameter)
  list_parameter_versions namespace key = do
    rows ← pool.query (versions_query namespace key)
    versions ← lift (outcome (scan_rows (scan_parameter pool.scan_error map_json) rows.read))
    lift (ended_with rows.ended versions)

  append_event : LedgerEvent → Exec W (Unit {0})
  append_event e = do
    context ← lift (map_json.marshal e.context)
    pool.exec (insert_event_statement e context)

  -- `QueryRow(…).Scan(&total)`, where `none` is `pgx.ErrNoRows`; a count always has a row.
  scanned_total : Option (List (Value Doc)) → Outcome ℤ
  scanned_total none = fails (Error.other "no rows in result set")
  scanned_total (some row) = outcome (scan_total pool.scan_error map_json row)

  query_audit : String → String → ℤ → ℤ → Exec W (List LedgerEvent × ℤ)
  query_audit namespace key limit offset = do
    row ← pool.query_row (total_query namespace key)
    total ← lift (scanned_total row)
    rows ← pool.query (page_query namespace key limit offset)
    events ← lift (outcome (scan_rows (scan_event pool.scan_error map_json) rows.read))
    lift (ended_with rows.ended (events, total))

  unfoldable pub postgres_store : Store W
  unfolding create_parameter get_parameter get_parameter_by_id update_parameter_state
      list_parameter_versions append_event query_audit scanned_total
  postgres_store = record {
    create_parameter = create_parameter;
    get_parameter = get_parameter;
    get_parameter_by_id = get_parameter_by_id;
    update_parameter_state = update_parameter_state;
    list_parameter_versions = list_parameter_versions;
    append_event = append_event;
    query_audit = query_audit;
  }
