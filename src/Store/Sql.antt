-- ===== src/Store/Sql.antt =====
-- SQL as internal/store/postgres.go writes it, and a pool of connections (pgxpool.Pool) that
-- runs it. `Doc` is a JSON document.
pub mod Tables
pub mod Meaning
use truthmetal.Base.{String, Bool, Option, List}
use truthmetal.Base.Int.{ℤ}
use truthmetal.Exec.{Error, Exec}
use truthmetal.Model.{Time}

-- What a placeholder stands for, and what a column of an answer holds. A UUID is its text.
pub data Value (Doc : Type 0) : Type 0 where
  text : String → Value Doc
  number : ℤ → Value Doc
  time : Time → Value Doc
  json : Doc → Value Doc
  null : Value Doc

-- The right side of `SET column = …`.
pub data Setting (Doc : Type 0) : Type 0 where
  to : Value Doc → Setting Doc
  to_now : Setting Doc

-- Conditions are `column = value`, joined by AND.
pub data Statement (Doc : Type 0) : Type 0 where
  insert_into : (table : String) → List String → List (Value Doc) → Statement Doc
  update :
      (table : String) → List (String × Setting Doc) → List (String × Value Doc) → Statement Doc

-- `column`, or `COALESCE(column, 'text')`.
pub data Selected : Type 0 where
  column : String → Selected
  coalesce : String → String → Selected

-- `parameters`, or `ledger_events le JOIN parameters p ON p.id = le.parameter_id`. In the join
-- the columns of `le` are selected and those of `p` stand in the conditions.
pub data Source : Type 0 where
  parameters events_of_parameters : Source

pub record Order : Type 0 where
  pub by : String
  pub descending : Bool

-- `LIMIT limit OFFSET offset`
pub record Window : Type 0 where
  pub limit : ℤ
  pub offset : ℤ

pub record Select (Doc : Type 0) : Type 0 where
  pub columns : List Selected
  pub source : Source
  pub conditions : List (String × Value Doc)
  pub order : Option Order
  pub window : Option Window

pub data Query (Doc : Type 0) : Type 0 where
  select : Select Doc → Query Doc
  -- `SELECT COUNT(*)`
  count : Source → List (String × Value Doc) → Query Doc

-- The rows that were read, and `rows.Err()` behind them.
pub record Rows (Doc : Type 0) : Type 0 where
  pub read : List (List (Value Doc))
  pub ended : Option Error

pub record Pool (W Doc : Type 0) : Type 0 where
  pub exec : Statement Doc → Exec W (Unit {0})
  -- `none` is `pgx.ErrNoRows`.
  pub query_row : Query Doc → Exec W (Option (List (Value Doc)))
  pub query : Query Doc → Exec W (Rows Doc)
  -- The error of `Scan` at a value that does not fit its destination.
  pub scan_error : Error
