-- ===== src/Ledger/Unreadable.antt =====
-- The service over `PostgresStore`, as PostgreSQL analyses its queries.
use truthmetal.Base.{String, ◌≡◌, ap, ◌∙◌}
use truthmetal.Exec.{panics, other, Env, ◌>>=◌}
use truthmetal.Model.{SubmitRequest}
use truthmetal.Store.Sql.{Pool}
use truthmetal.Store.Sql.Tables.{Tables}
use truthmetal.Store.Sql.Meaning.{RunsSql}
use truthmetal.Store.Postgres.{postgres_store}
use truthmetal.Store.Postgres.Scan.{MapJson}
use truthmetal.Store.Postgres.Writes.{ReadsBack, db_of}
use truthmetal.Store.Postgres.Refinement.{postgres_store-IsStore}
use truthmetal.Store.Postgres.Rejection.{AnalysesUuids, Broken, reads-Broken}
use truthmetal.Cache.{Cache}
use truthmetal.Consensus.{Parsers}
use truthmetal.Ledger.{Process, Service, new_service, submit, revoke, get_by_id}
use truthmetal.Ledger.Panics.{submit_error}

module _ {W Doc D : Type 0} (pool : Pool W D) (map_json : MapJson D) (cache : Cache W Doc)
    (env : Env W) (parsers : Parsers) {tables : W → Tables D} (sql : RunsSql pool tables)
    (maps : ReadsBack map_json) (analysis : AnalysesUuids pool) where
  abbrev svc : Service W Doc
  svc = new_service (postgres_store pool map_json) cache env parsers

  -- If the pool runs SQL, a map that was marshalled is read back, and PostgreSQL rejects the queries
  -- that default a UUID to the empty text, then the server with its own store serves no version:
  -- every `Submit` panics and changes neither versions nor events, and every `Revoke` and every
  -- `GetByID` fails with an error that is not that of a missing version.
  pub service_unreadable :
      (req : SubmitRequest) (namespace key actor reason id : String) (s : Process W)
      → ((submit svc req s).0 ≡ panics)
        × (db_of map_json (tables (submit svc req s).1.world) ≡ db_of map_json (tables s.world))
        × Broken (revoke svc namespace key actor reason s.world).0
        × Broken (get_by_id svc id s.world).0
  unfolding revoke get_by_id ◌>>=◌
  service_unreadable req namespace key actor reason id s =
      let (m, e) = (reads-Broken pool map_json analysis req.namespace req.key id s.world).0 in
      let (n, f) = (reads-Broken pool map_json analysis namespace key id s.world).0 in
      let crash = submit_error svc req s (other m) e in
      let contract = postgres_store-IsStore pool map_json sql maps in
      (
        ap (λ r. r.0) crash,
        ap (λ r. db_of map_json (tables r.1.world)) crash
            ∙ contract.get_reads req.namespace req.key s.world,
        (n, rw f),
        (reads-Broken pool map_json analysis namespace key id s.world).1,
      )
