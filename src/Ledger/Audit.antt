-- ===== src/Ledger/Audit.antt =====
-- `QueryAudit` of the service over `PostgresStore`.
use truthmetal.Base.{String, ◌≡◌, List, if◌then◌else◌}
use truthmetal.Base.Int.{ℤ, pos, leb_ℤ}
use truthmetal.Exec.{returns, Env}
use truthmetal.Model.{LedgerEvent}
use truthmetal.Store.Audit.{IsPage}
use truthmetal.Store.Sql.{Pool}
use truthmetal.Store.Sql.Tables.{Tables}
use truthmetal.Store.Sql.Meaning.{RunsSql}
use truthmetal.Store.Postgres.{postgres_store}
use truthmetal.Store.Postgres.Scan.{MapJson}
use truthmetal.Store.Postgres.Writes.{db_of}
use truthmetal.Store.Postgres.Pages.{postgres_audit-IsPage}
use truthmetal.Cache.{Cache}
use truthmetal.Consensus.{Parsers}
use truthmetal.Ledger.{new_service, query_audit}

module _ {W Doc D : Type 0} (pool : Pool W D) (map_json : MapJson D) (cache : Cache W Doc)
    (env : Env W) (parsers : Parsers) {tables : W → Tables D} (sql : RunsSql pool tables) where
  -- If the pool runs SQL against the tables, and `QueryAudit` of a server with `PostgresStore`
  -- returns, then what it returns is a page of the audit of the key in what the tables show: the
  -- events of the versions of the key, newest first, from the offset on and as many as the limit,
  -- or 50 if the limit is not positive, with the number of all events of the key.
  pub query_audit-IsPage :
      (namespace key : String) (limit offset : ℤ) (w : W) (page : List LedgerEvent) (total : ℤ)
      → (query_audit
          (new_service (postgres_store pool map_json) cache env parsers)
          namespace
          key
          limit
          offset
          w).0
        ≡ returns (page, total)
      → IsPage namespace key
          (if leb_ℤ limit (pos 0) then pos 50 else limit)
          offset
          (db_of map_json (tables w))
          page
          total
  unfolding query_audit
  query_audit-IsPage namespace key limit offset w page total h =
      postgres_audit-IsPage map_json pool namespace key sql _ offset w page total h
