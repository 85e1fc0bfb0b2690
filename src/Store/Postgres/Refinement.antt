-- ===== src/Store/Postgres/Refinement.antt =====
-- `PostgresStore` over a pool that runs SQL keeps the contract of `Store`.
use truthmetal.Base.{String, ◌≡◌, refl, ap, inl, inr, some}
use truthmetal.Base.Int.{ℤ}
use truthmetal.Exec.{Outcome, returns, fails, panics, continue, ◌>>=◌}
use truthmetal.Exec.Keeps.{Keeps, Same, Same-preorder, Keeps-lift, Keeps-bind}
use truthmetal.Model.{Time, StringMap}
use truthmetal.Store.Db.{Db, insert_parameter, add_event}
use truthmetal.Store.Contract.{Wrote, Sets, IsStore}
use truthmetal.Store.Sql.{Statement, Query, Pool}
use truthmetal.Store.Sql.Tables.{Tables}
use truthmetal.Store.Sql.Meaning
use truthmetal.Store.Sql.Meaning.{Executed, RunsSql}
use truthmetal.Store.Postgres.{
  insert_parameter_statement, update_statement, insert_event_statement, canonical_query, id_query,
  create_parameter, get_parameter, get_parameter_by_id, update_parameter_state,
  list_parameter_versions, append_event, query_audit, postgres_store,
}
use truthmetal.Store.Postgres.Scan.{MapJson}
use truthmetal.Store.Postgres.Writes.{db_of, ReadsBack, inserted, updated, appended}
use truthmetal.Store.Postgres.Reads.{canonical_found, id_found}

ruleset rules = (Same-preorder, Keeps-lift, Keeps-bind)

module _ {W Doc : Type 0} (pool : Pool W Doc) (map_json : MapJson Doc) {tables : W → Tables Doc}
    (sql : RunsSql pool tables) (maps : ReadsBack map_json) where
  abbrev shown : W → Db
  shown w = db_of map_json (tables w)

  -- A statement with an effect on the tables has it on what they show.
  wrote :
      (s : Statement Doc) (R : Db → Db → Type 0)
      → ((now : Time) (t t' : Tables Doc)
          → Meaning.after now s t ≡ some t'
          → R (db_of map_json t) (db_of map_json t'))
      → (o : Outcome (Unit {0})) (t t' : Tables Doc) → Executed s t o t'
      → Wrote R (db_of map_json t) o (db_of map_json t')
  wrote s R effect (returns u) t t' (now, e) = effect now t t' e
  wrote s R effect (fails x) t t' (inl e) = inl (ap (db_of map_json) e)
  wrote s R effect (fails x) t t' (inr (now, e)) = inr (effect now t t' e)
  wrote s R effect panics t t' h = absurd h

  -- A statement with a document for a map, from the answer of `json.Marshal`.
  marshalled :
      (m : StringMap) (s : Doc → Statement Doc) (R : Db → Db → Type 0)
      → ((d : Doc) (now : Time) (t t' : Tables Doc)
          → map_json.unmarshal d ≡ some m
          → Meaning.after now (s d) t ≡ some t'
          → R (db_of map_json t) (db_of map_json t'))
      → (o : Outcome Doc) (w : W) → map_json.marshal m ≡ o
      → Wrote R
          (shown w)
          (continue o (λ d. pool.exec (s d)) w).0
          (shown (continue o (λ d. pool.exec (s d)) w).1)
  marshalled m s R effect (returns d) w e =
      wrote (s d) R (λ now t t'. effect d now t t' (maps.read_back m d e)) _ _ _
        (sql.executed (s d) w)
  marshalled m s R effect (fails x) w e = inl refl
  marshalled m s R effect panics w e = absurd (maps.marshal_answers m e)

  row-Same : (q : Query Doc) → Keeps Same shown (pool.query_row q)
  row-Same q = record { at = λ w. ap (db_of map_json) (sql.row_reads q w) }

  rows-Same : (q : Query Doc) → Keeps Same shown (pool.query q)
  rows-Same q = record { at = λ w. ap (db_of map_json) (sql.rows_reads q w) }

  get-Same : (namespace key : String) → Keeps Same shown (get_parameter pool map_json namespace key)
  unfolding get_parameter
  get-Same namespace key = search (rules, row-Same)

  by_id-Same : (id : String) → Keeps Same shown (get_parameter_by_id pool map_json id)
  unfolding get_parameter_by_id
  by_id-Same id = search (rules, row-Same)

  versions-Same :
      (namespace key : String)
      → Keeps Same shown (list_parameter_versions pool map_json namespace key)
  unfolding list_parameter_versions
  versions-Same namespace key = search (rules, rows-Same)

  audit-Same :
      (namespace key : String) (limit offset : ℤ)
      → Keeps Same shown (query_audit pool map_json namespace key limit offset)
  unfolding query_audit
  audit-Same namespace key limit offset = search (rules, row-Same, rows-Same) depth 9

  -- If the pool runs SQL against the tables or fails, and a map of strings that was marshalled is
  -- read back as it was, `PostgresStore` keeps the contract of `Store` for the versions and the
  -- events that the tables show.
  pub postgres_store-IsStore :
      IsStore (postgres_store pool map_json) (λ w. db_of map_json (tables w))
  unfolding postgres_store create_parameter get_parameter get_parameter_by_id update_parameter_state
      append_event ◌>>=◌
  postgres_store-IsStore = record {
    create = λ p w.
        marshalled p.metadata (insert_parameter_statement p)
          (λ before after. after ≡ insert_parameter p before)
          (λ d now t t'. inserted map_json p d now t t') _ w refl;
    update = λ id state w.
        wrote (update_statement id state) (Sets id state)
          (λ now t t' e. (now, updated map_json id state now t t' e)) _ _ _
          (sql.executed (update_statement id state) w);
    append = λ e w.
        marshalled e.context (insert_event_statement e) (λ before after. after ≡ add_event e before)
          (λ d now t t'. appended map_json e d now t t') _ w refl;
    get = λ namespace key w.
        canonical_found map_json pool namespace key (tables w) _ _
          (sql.answered_row (canonical_query namespace key) w);
    get_reads = λ namespace key w. (get-Same namespace key).at w;
    by_id = λ id w. id_found map_json pool id (tables w) _ _ (sql.answered_row (id_query id) w);
    by_id_reads = λ id w. (by_id-Same id).at w;
    audit_reads = λ namespace key limit offset w. (audit-Same namespace key limit offset).at w;
    versions_reads = λ namespace key w. (versions-Same namespace key).at w;
  }
