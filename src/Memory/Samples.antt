-- ===== src/Memory/Samples.antt =====
-- The store and the service over a pool in memory.
use truthmetal.Base.{ℕ, String, string_dec, ◌≡◌, refl, Bool, false, none, some, [], ◌∷◌}
use truthmetal.Base.Int.{pos}
use truthmetal.Exec.{panics, returns, ◌>>=◌}
use truthmetal.Model.{StringMap, Parameter, LedgerEvent, SubmitRequest}
use truthmetal.Store.Contract.{IsStore}
use truthmetal.Store.Audit.{IsPage}
use truthmetal.Store.Sql.{Query}
use truthmetal.Store.Sql.Tables.{EventRow}
use truthmetal.Base.Sorting.{sort}
use truthmetal.Store.Postgres.{postgres_store}
use truthmetal.Store.Postgres.Scan.{scan_total, scan_rows, scan_event}
use truthmetal.Store.Postgres.Writes.{db_of, event_at}
use truthmetal.Store.Postgres.Refinement.{postgres_store-IsStore}
use truthmetal.Store.Postgres.Rejection.{Broken}
use truthmetal.Memory.{test_parsers}
use truthmetal.Memory.Sql.{
  SqlWorld, memory_json, memory_pool, memory_pool-RunsSql, memory_json-ReadsBack, strict_pool,
  strict_pool-AnalysesUuids, sql_env, sql_cache,
}
use truthmetal.Ledger.{Process, Service, new_service, submit, revoke, get_by_id, query_audit}
use truthmetal.Ledger.Audit.{query_audit-IsPage}
use truthmetal.Ledger.Unreadable.{service_unreadable}

-- A pool that rejects nothing.
abbrev lenient : Query StringMap → Bool
lenient q = false

postgres_store-IsStore_example :
    IsStore (postgres_store (memory_pool lenient) memory_json) (λ w. db_of memory_json w.tables)
postgres_store-IsStore_example =
    postgres_store-IsStore (memory_pool lenient) memory_json (memory_pool-RunsSql lenient)
      memory_json-ReadsBack

abbrev service : Service SqlWorld Parameter
service = new_service (postgres_store strict_pool memory_json) sql_cache sql_env test_parsers

abbrev request : SubmitRequest
request = record {
  key = "limit";
  value = "10";
  value_type = "string";
  namespace = "risk";
  source = "";
  source_ref = "";
  metadata = none;
  actor = "ana";
}

abbrev stored : Process SqlWorld
stored = record {
  world = record {
    tables = record {
      parameters =
          record {
            id = "00000000-0000-4000-8000-000000000001";
            key = "limit";
            value = "9";
            value_type = "string";
            namespace = "risk";
            source = "";
            source_ref = "";
            version = pos 1;
            previous_version_id = none;
            state = "CANONICAL";
            metadata = some [];
            created_at = 1;
            updated_at = 1;
          }
          ∷ [];
      ledger_events = [];
    };
    clock = 2;
  };
  events = [];
}

abbrev stored_id : String
stored_id = "00000000-0000-4000-8000-000000000001"

service_unreadable_example :
    ((submit service request stored).0 ≡ panics)
    × (db_of memory_json (submit service request stored).1.world.tables
        ≡ db_of memory_json stored.world.tables)
    × Broken (revoke service "risk" "limit" "ana" "wrong" stored.world).0
    × Broken (get_by_id service stored_id stored.world).0
service_unreadable_example =
    service_unreadable strict_pool memory_json sql_cache sql_env test_parsers
      (memory_pool-RunsSql _) memory_json-ReadsBack strict_pool-AnalysesUuids request "risk" "limit"
      "ana" "wrong" stored_id stored

abbrev entry : String → ℕ → EventRow StringMap
entry reason t = record {
  id = "";
  parameter_id = stored_id;
  event_type = "submitted";
  from_state = "";
  to_state = "SUBMITTED";
  actor = "ana";
  reason = reason;
  context = some [];
  occurred_at = t;
}

abbrev told : String → ℕ → LedgerEvent
told reason t = event_at memory_json (entry reason t)

abbrev eventful : SqlWorld
eventful = record {
  tables = record stored.world.tables {
    ledger_events = entry "first" 3 ∷ entry "last" 5 ∷ entry "second" 4 ∷ [];
  };
  clock = 6;
}

abbrev lenient_service : Service SqlWorld Parameter
lenient_service =
    new_service (postgres_store (memory_pool lenient) memory_json) sql_cache sql_env test_parsers

two_newest :
    (query_audit lenient_service "risk" "limit" (pos 2) (pos 0) eventful).0
    ≡ returns (told "last" 5 ∷ told "second" 4 ∷ [], pos 3)
unfolding query_audit postgres_store string_dec sort scan_total scan_rows scan_event ◌>>=◌
two_newest = refl

query_audit-IsPage_example :
    IsPage "risk" "limit"
      (pos 2)
      (pos 0)
      (db_of memory_json eventful.tables)
      (told "last" 5 ∷ told "second" 4 ∷ [])
      (pos 3)
query_audit-IsPage_example =
    query_audit-IsPage (memory_pool lenient) memory_json sql_cache sql_env test_parsers
      (memory_pool-RunsSql lenient) "risk" "limit" (pos 2) (pos 0) eventful
      (told "last" 5 ∷ told "second" 4 ∷ []) (pos 3) two_newest
