-- ===== src/Store/Postgres/Rejection.antt =====
-- The queries of `PostgresStore` for versions, as PostgreSQL analyses them.
use truthmetal.Base.{
  String, ◌≡◌, refl, Bool, true, false, ◌&&◌, ◌||◌, List, [], ◌∷◌, ◌==◌, string_dec,
}
use truthmetal.Exec.{other, Outcome, fails, ◌>>=◌}
use truthmetal.Store.Sql.{
  Selected, column, coalesce, Source, parameters, events_of_parameters, Query, select, count, Pool,
}
use truthmetal.Store.Postgres.{
  canonical_query, id_query, versions_query, get_parameter, get_parameter_by_id,
  list_parameter_versions, postgres_store,
}
use truthmetal.Store.Postgres.Scan.{MapJson}

-- The columns of type UUID in migrations/.
abbrev pub uuid_column : Source → String → Bool
uuid_column parameters c = c == "id" || c == "previous_version_id"
uuid_column events_of_parameters c = c == "id" || c == "parameter_id"

abbrev empty_default : Source → List Selected → Bool
empty_default source [] = false
empty_default source (column c ∷ cs) = empty_default source cs
empty_default source (coalesce c s ∷ cs) =
    uuid_column source c && s == "" || empty_default source cs

-- The query asks for `COALESCE(column, '')` of a UUID.
abbrev pub has_empty_default : {Doc : Type 0} → Query Doc → Bool
has_empty_default (select q) = empty_default q.source q.columns
has_empty_default (count source conditions) = false

-- PostgreSQL takes the literal beside a UUID for a UUID. The empty text is none, so the analysis of
-- the query fails, whatever the tables hold.
pub record AnalysesUuids {W Doc : Type 0} (pool : Pool W Doc) : Type 0 where
  pub rejects_row :
      (q : Query Doc) (w : W)
      → has_empty_default q ≡ true
      → (m : String) × ((pool.query_row q w).0 ≡ fails (other m))
  pub rejects_rows :
      (q : Query Doc) (w : W)
      → has_empty_default q ≡ true
      → (m : String) × ((pool.query q w).0 ≡ fails (other m))

module _ (Doc : Type 0) where
  canonical_rejected :
      (namespace key : String)
      → has_empty_default (canonical_query {Doc = Doc} namespace key) ≡ true
  unfolding string_dec
  canonical_rejected namespace key = refl

  id_rejected : (id : String) → has_empty_default (id_query {Doc = Doc} id) ≡ true
  unfolding string_dec
  id_rejected id = refl

  versions_rejected :
      (namespace key : String) → has_empty_default (versions_query {Doc = Doc} namespace key) ≡ true
  unfolding string_dec
  versions_rejected namespace key = refl

-- The call fails, and not with a missing resource.
abbrev pub Broken : {A : Type 0} → Outcome A → Type 0
Broken o = (m : String) × (o ≡ fails (other m))

module _ {W Doc : Type 0} (pool : Pool W Doc) (map_json : MapJson Doc)
    (analysis : AnalysesUuids pool) where
  -- If PostgreSQL rejects the queries that default a UUID to the empty text, then no query of
  -- `PostgresStore` for a version ever succeeds, and none reports a missing one: not the one for
  -- the canonical version of a key, not that for an id, and not that for the versions of a key.
  pub reads-Broken :
      (namespace key id : String) (w : W)
      → Broken ((postgres_store pool map_json).get_parameter namespace key w).0
        × Broken ((postgres_store pool map_json).get_parameter_by_id id w).0
        × Broken ((postgres_store pool map_json).list_parameter_versions namespace key w).0
  unfolding postgres_store get_parameter get_parameter_by_id list_parameter_versions ◌>>=◌
  reads-Broken namespace key id w =
      let (m, e) =
        analysis.rejects_row (canonical_query namespace key) w
          (canonical_rejected Doc namespace key) in
      let (n, f) = analysis.rejects_row (id_query id) w (id_rejected Doc id) in
      let (o, g) =
        analysis.rejects_rows (versions_query namespace key) w
          (versions_rejected Doc namespace key) in
      ((m, rw e), (n, rw f), (o, rw g))
