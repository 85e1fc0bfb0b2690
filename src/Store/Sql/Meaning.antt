-- ===== src/Store/Sql/Meaning.antt =====
-- What the statements and queries of postgres.go mean on the tables, and what a pool that runs
-- them does.
use truthmetal.Base.{
  ℕ, String, ◌≡◌, ◌⊎◌, Bool, true, false, ◌&&◌, Option, none, some, List, [], ◌∷◌, ◌++◌, map, ◌==◌,
  if◌then◌else◌, length, take, drop, filter,
}
use truthmetal.Base.Int.{ℤ, pos, leb_ℤ}
use truthmetal.Base.Sorting.{Reorders, IsSorted}
use truthmetal.Exec.{Error, not_found, Outcome, returns, fails, panics}
use truthmetal.Model.{Time}
use truthmetal.Store.Sql.{
  Value, text, number, time, null, Setting, to, to_now, Statement, insert_into, update, Selected,
  column, coalesce, Source, parameters, events_of_parameters, Order, Window, Select, Query, select,
  count, Rows, Pool,
}
use truthmetal.Store.Sql.Tables.{
  ParameterRow, EventRow, Tables, parameter_column, event_column, zip, parameter_row, event_row,
  ◌>>=◌,
}

module _ {Doc : Type 0} where
  abbrev pub same_value : Value Doc → Value Doc → Bool
  same_value (text s) (text t) = s == t
  same_value _ _ = false

  abbrev pub satisfies : (String → Value Doc) → List (String × Value Doc) → Bool
  satisfies col [] = true
  satisfies col ((c, v) ∷ cs) = same_value (col c) v && satisfies col cs

  abbrev state_setter : Setting Doc → Option (ParameterRow Doc → ParameterRow Doc)
  state_setter (to (text s)) = some (λ r. record r { state = s })
  state_setter _ = none

  abbrev updated_setter : Time → Setting Doc → Option (ParameterRow Doc → ParameterRow Doc)
  updated_setter now (to (time t)) = some (λ r. record r { updated_at = t })
  updated_setter now to_now = some (λ r. record r { updated_at = now })
  updated_setter now _ = none

  -- Only of the columns that the program sets.
  abbrev setters : Time → List (String × Setting Doc) → Option (ParameterRow Doc → ParameterRow Doc)
  setters now [] = some (λ r. r)
  setters now ((c, s) ∷ rest) = do
    first ←
        if c == "state"
        then state_setter s
        else if c == "updated_at"
        then updated_setter now s
        else none
    others ← setters now rest
    some (λ r. others (first r))

  -- The tables behind a statement, where it has a meaning.
  abbrev pub after : Time → Statement Doc → Tables Doc → Option (Tables Doc)
  after now (insert_into table columns values) t =
      if table == "parameters"
      then (do
        row ← parameter_row (zip columns values)
        some (record t { parameters = t.parameters ++ row ∷ [] }))
      else if table == "ledger_events"
      then (do
        row ← event_row (zip columns values)
        some (record t { ledger_events = t.ledger_events ++ row ∷ [] }))
      else none
  after now (update table settings conditions) t =
      if table == "parameters"
      then (do
        set ← setters now settings
        some (record t {
          parameters =
              map (λ r. if satisfies (parameter_column r) conditions then set r else r)
                t.parameters;
        }))
      else none

  abbrev pub selected : (String → Value Doc) → Selected → Value Doc
  selected col (column c) = col c
  selected col (coalesce c s) = elim (col c) [ null ↦ text s | other ↦ other ]

  -- Numbers and times in their order.
  abbrev pub rank : Value Doc → ℤ
  rank (number n) = n
  rank (time t) = pos t
  rank _ = pos 0

module _ {A : Type 0} where
  -- A negative limit or offset is an error.
  abbrev pub cut : ℤ → ℤ → List A → Option (List A)
  cut (pos limit) (pos offset) xs = some (take limit (drop offset xs))
  cut _ _ xs = none

  abbrev pub windowed : Option Window → List A → Option (List A)
  windowed none xs = some xs
  windowed (some w) xs = cut w.limit w.offset xs

-- `tested` has the columns for the conditions, `picked` the selected ones.
module _ {Doc R : Type 0} (tested : R → String → Value Doc) where
  abbrev pub found : List (String × Value Doc) → List R → List R
  found conditions = filter (λ r. satisfies (tested r) conditions)

module _ {Doc R : Type 0} (picked : R → String → Value Doc) where
  -- `r` may stand before `s`.
  abbrev pub before : Option Order → R → R → Bool
  before none r s = true
  before (some o) r s =
      if o.descending
      then leb_ℤ (rank (picked s o.by)) (rank (picked r o.by))
      else leb_ℤ (rank (picked r o.by)) (rank (picked s o.by))

  abbrev pub projected : List Selected → R → List (Value Doc)
  projected columns r = map (selected (picked r)) columns

module _ {Doc R : Type 0} (picked tested : R → String → Value Doc) where
  -- An answer has the rows that satisfy the conditions, arranged by the order but else in any.
  pub record Answers (q : Select Doc) (rows : List R) (answer : List (List (Value Doc)))
      : Type 0 where
    pub arranged : List R
    pub reorders : Reorders arranged (found tested q.conditions rows)
    pub sorted : IsSorted (before picked q.order) arranged
    pub cut_out : List R
    pub cut_lem : windowed q.window arranged ≡ some cut_out
    pub shown : answer ≡ map (projected picked q.columns) cut_out

module _ {Doc : Type 0} where
  -- The parameters that an event belongs to.
  abbrev pub joined_with :
      EventRow Doc → List (ParameterRow Doc) → List (EventRow Doc × ParameterRow Doc)
  joined_with e [] = []
  joined_with e (p ∷ ps) =
      if p.id == e.parameter_id then (e, p) ∷ joined_with e ps else joined_with e ps

  abbrev pub joined :
      List (EventRow Doc) → List (ParameterRow Doc) → List (EventRow Doc × ParameterRow Doc)
  joined [] ps = []
  joined (e ∷ es) ps = joined_with e ps ++ joined es ps

  abbrev pub event_of : EventRow Doc × ParameterRow Doc → String → Value Doc
  event_of r = event_column r.0

  abbrev pub parameter_of : EventRow Doc × ParameterRow Doc → String → Value Doc
  parameter_of r = parameter_column r.1

  abbrev pub AnswersFrom : Source → Select Doc → Tables Doc → List (List (Value Doc)) → Type 0
  AnswersFrom parameters q t = Answers parameter_column parameter_column q t.parameters
  AnswersFrom events_of_parameters q t =
      Answers event_of parameter_of q (joined t.ledger_events t.parameters)

  abbrev pub counted : Source → List (String × Value Doc) → Tables Doc → ℕ
  counted parameters conditions t = length (found parameter_column conditions t.parameters)
  counted events_of_parameters conditions t =
      length (found parameter_of conditions (joined t.ledger_events t.parameters))

  abbrev pub AnswersQuery : Query Doc → Tables Doc → List (List (Value Doc)) → Type 0
  AnswersQuery (select q) t answer = AnswersFrom q.source q t answer
  AnswersQuery (count source conditions) t answer =
      answer ≡ (number (pos (counted source conditions t)) ∷ []) ∷ []

  -- A statement that returns has taken effect; one that fails has or has not.
  abbrev pub Executed : Statement Doc → Tables Doc → Outcome (Unit {0}) → Tables Doc → Type 0
  Executed s t (returns _) t' = (now : Time) × (after now s t ≡ some t')
  Executed s t (fails e) t' = (t' ≡ t) ⊎ ((now : Time) × (after now s t ≡ some t'))
  Executed s t panics t' = ⊥

  -- The errors of the driver are not those of the store.
  abbrev pub AnsweredRow : Query Doc → Tables Doc → Outcome (Option (List (Value Doc))) → Type 0
  AnsweredRow q t (returns none) = AnswersQuery q t []
  AnsweredRow q t (returns (some row)) =
      (rest : List (List (Value Doc))) × AnswersQuery q t (row ∷ rest)
  AnsweredRow q t (fails (not_found r)) = ⊥
  AnsweredRow q t (fails (Error.other m)) = Unit
  AnsweredRow q t panics = ⊥

  -- Rows that end with an error are any part of an answer.
  abbrev pub AnsweredRows : Query Doc → Tables Doc → Outcome (Rows Doc) → Type 0
  AnsweredRows q t (returns rows) = (e : rows.ended ≡ none) → AnswersQuery q t rows.read
  AnsweredRows q t (fails e) = Unit
  AnsweredRows q t panics = ⊥

-- The pool runs statements and queries against the tables, or fails.
pub record RunsSql {W Doc : Type 0} (pool : Pool W Doc) (tables : W → Tables Doc) : Type 0 where
  pub executed :
      (s : Statement Doc) (w : W)
      → Executed s (tables w) (pool.exec s w).0 (tables (pool.exec s w).1)
  pub answered_row : (q : Query Doc) (w : W) → AnsweredRow q (tables w) (pool.query_row q w).0
  pub row_reads : (q : Query Doc) (w : W) → tables (pool.query_row q w).1 ≡ tables w
  pub answered_rows : (q : Query Doc) (w : W) → AnsweredRows q (tables w) (pool.query q w).0
  pub rows_reads : (q : Query Doc) (w : W) → tables (pool.query q w).1 ≡ tables w
  pub scan_fails : (r : String) (e : pool.scan_error ≡ not_found r) → ⊥
