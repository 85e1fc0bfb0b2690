-- ===== src/Store/Postgres/Scan.antt =====
-- `scanParameter`, `scanParameterFromRows` and the scan of an event: the values of a row, one
-- after the other, into the fields of a record.
use truthmetal.Base.{String, Option, none, some, List, [], ◌∷◌, Result, ok, err, ◌>>=◌}
use truthmetal.Base.Int.{ℤ}
use truthmetal.Exec.{Error, Outcome}
use truthmetal.Model.{Time, StringMap, Parameter, LedgerEvent}
use truthmetal.Store.Sql.{Value, text, number, time, json, null}

-- `json.Marshal` and `json.Unmarshal` at `map[string]string`; `none` is an error.
pub record MapJson (Doc : Type 0) : Type 0 where
  pub marshal : StringMap → Outcome Doc
  pub unmarshal : Doc → Option StringMap

abbrev pub or_empty_map : Option StringMap → StringMap
or_empty_map none = some []
or_empty_map (some m) = m

module _ {Doc : Type 0} (scan_error : Error) (map_json : MapJson Doc) where
  abbrev Scanned : Type 0 → Type 0
  Scanned A = Result Error (A × List (Value Doc))

  -- The destinations: `*string`, `*int64`, `*time.Time` and `*[]byte`, which takes NULL.
  abbrev to_string : List (Value Doc) → Scanned String
  to_string (text s ∷ vs) = ok (s, vs)
  to_string _ = err scan_error

  abbrev to_int64 : List (Value Doc) → Scanned ℤ
  to_int64 (number n ∷ vs) = ok (n, vs)
  to_int64 _ = err scan_error

  abbrev to_time : List (Value Doc) → Scanned Time
  to_time (time t ∷ vs) = ok (t, vs)
  to_time _ = err scan_error

  abbrev to_bytes : List (Value Doc) → Scanned (Option Doc)
  to_bytes (json d ∷ vs) = ok (some d, vs)
  to_bytes (null ∷ vs) = ok (none, vs)
  to_bytes _ = err scan_error

  -- As many values as destinations.
  abbrev done : {A : Type 0} → List (Value Doc) → A → Result Error A
  done [] a = ok a
  done (v ∷ vs) a = err scan_error

  -- A document that is not a map of strings gives an empty map.
  abbrev map_of : Option Doc → StringMap
  map_of none = some []
  map_of (some d) = or_empty_map (map_json.unmarshal d)

  unfoldable pub scan_parameter : List (Value Doc) → Result Error Parameter
  scan_parameter vs = do
    (id, vs) ← to_string vs
    (key, vs) ← to_string vs
    (content, vs) ← to_string vs
    (value_type, vs) ← to_string vs
    (namespace, vs) ← to_string vs
    (source, vs) ← to_string vs
    (source_ref, vs) ← to_string vs
    (version, vs) ← to_int64 vs
    (previous, vs) ← to_string vs
    (state, vs) ← to_string vs
    (meta, vs) ← to_bytes vs
    (created, vs) ← to_time vs
    (updated, vs) ← to_time vs
    done vs (record {
      id = id;
      key = key;
      value = content;
      value_type = value_type;
      namespace = namespace;
      source = source;
      source_ref = source_ref;
      version = version;
      previous_version_id = previous;
      state = state;
      metadata = map_of meta;
      created_at = created;
      updated_at = updated;
    })

  unfoldable pub scan_event : List (Value Doc) → Result Error LedgerEvent
  scan_event vs = do
    (id, vs) ← to_string vs
    (parameter_id, vs) ← to_string vs
    (event_type, vs) ← to_string vs
    (from, vs) ← to_string vs
    (target, vs) ← to_string vs
    (actor, vs) ← to_string vs
    (reason, vs) ← to_string vs
    (context, vs) ← to_bytes vs
    (occurred, vs) ← to_time vs
    done vs (record {
      id = id;
      parameter_id = parameter_id;
      event_type = event_type;
      from_state = from;
      to_state = target;
      actor = actor;
      reason = reason;
      context = map_of context;
      occurred_at = occurred;
    })

  unfoldable pub scan_total : List (Value Doc) → Result Error ℤ
  scan_total vs = do (total, vs) ← to_int64 vs; done vs total

-- `for rows.Next()`: the first row that does not scan ends the loop.
unfoldable pub scan_rows : {V A : Type 0} → (V → Result Error A) → List V → Result Error (List A)
scan_rows scan [] = ok []
scan_rows scan (row ∷ rows) = do a ← scan row; rest ← scan_rows scan rows; ok (a ∷ rest)
