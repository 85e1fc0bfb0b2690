-- ===== src/Store.antt =====
-- internal/store/store.go: the `Store` interface, over a state `W` of the world.
pub mod Db
pub mod Contract
pub mod Kept
pub mod Evolution
pub mod Typed
pub mod Replay
pub mod Telling
pub mod Canonical
pub mod Writable
pub mod Sql
pub mod Audit
pub mod Postgres
use truthmetal.Base.{String, List}
use truthmetal.Base.Int.{ℤ}
use truthmetal.Exec.{Exec}
use truthmetal.Model.{ParameterState, Parameter, LedgerEvent}

pub record Store (W : Type 0) : Type 0 where
  pub create_parameter : Parameter → Exec W (Unit {0})
  -- namespace, then key
  pub get_parameter : String → String → Exec W Parameter
  pub get_parameter_by_id : String → Exec W Parameter
  pub update_parameter_state : String → ParameterState → Exec W (Unit {0})
  pub list_parameter_versions : String → String → Exec W (List Parameter)
  pub append_event : LedgerEvent → Exec W (Unit {0})
  -- namespace, key, limit and offset; the page, and the total
  pub query_audit : String → String → ℤ → ℤ → Exec W (List LedgerEvent × ℤ)
