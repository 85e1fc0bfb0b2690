-- ===== src/Memory/Sql.antt =====
-- A pool in memory that runs SQL, but for the queries that a test rejects.
use mathlib.Core.Option
use truthmetal.Base.{
  ℕ, suc, String, ◌≡◌, refl, ◌⊎◌, inl, inr, Bool, true, Option, none, some, List, [], ◌∷◌, map,
  if◌then◌else◌, arith, leb, Bool-cases, Option-cases,
}
use truthmetal.Base.Int.{pos}
use truthmetal.Base.Sorting.{sort, sort-Reorders, sort-IsSorted}
use truthmetal.Exec.{other, Outcome, returns, fails, Env}
use truthmetal.Model.{StringMap, Parameter}
use truthmetal.Store.Sql.{
  Value, number, Source, parameters, events_of_parameters, Order, Select, Statement, Query, select,
  count, Pool, Rows,
}
use truthmetal.Store.Sql.Tables.{Tables, parameter_column}
use truthmetal.Store.Sql.Meaning.{
  after, before, found, projected, windowed, Answers, AnswersQuery, AnsweredRow, AnsweredRows,
  Executed, joined, event_of, parameter_of, counted, AnswersFrom, RunsSql,
}
use truthmetal.Cache.{Cache}
use truthmetal.Store.Postgres.Rejection.{AnalysesUuids, has_empty_default}
use truthmetal.Store.Postgres.Scan.{MapJson}
use truthmetal.Store.Postgres.Writes.{ReadsBack}

pub record SqlWorld : Type 0 where
  pub tables : Tables StringMap
  pub clock : ℕ

-- A document is the map that it encodes.
abbrev pub memory_json : MapJson StringMap
memory_json = record { marshal = λ m. returns m; unmarshal = λ d. some d }

leb_total : (a b : ℕ) → (leb a b ≡ true) ⊎ (leb b a ≡ true)
leb_total a b = elim (Bool-cases (leb a b)) [ inl t ↦ inl t | inr f ↦ inr (ground arith) ]

module _ {R : Type 0} (picked tested : R → String → Value StringMap) where
  abbrev evaluated : Select StringMap → List R → Option (List (List (Value StringMap)))
  evaluated q rows =
      Option.map (map (projected picked q.columns))
        (windowed q.window (sort (before picked q.order) (found tested q.conditions rows)))

  before_total :
      (o : Option Order) (r s : R) → (before picked o r s ≡ true) ⊎ (before picked o s r ≡ true)
  before_total none r s = inl refl
  before_total (some o) r s = elim (Bool-cases o.descending) [
    | inl d ↦ rw d (leb_total _ _)
    | inr d ↦ rw d (leb_total _ _)
  ]

  before_trans :
      (o : Option Order) (r s t : R)
      → before picked o r s ≡ true
      → before picked o s t ≡ true
      → before picked o r t ≡ true
  before_trans none r s t h k = refl
  before_trans (some o) r s t h k = ground arith

  evaluated-Answers :
      (q : Select StringMap) (rows : List R) (answer : List (List (Value StringMap)))
      → evaluated q rows ≡ some answer
      → Answers picked tested q rows answer
  evaluated-Answers q rows answer e =
      elim (Option-cases
        (windowed q.window (sort (before picked q.order) (found tested q.conditions rows)))) [
          | inl n ↦ absurd (no n)
          | inr (cut_out, c) ↦ record {
            arranged = sort (before picked q.order) (found tested q.conditions rows);
            reorders = sort-Reorders _ _;
            sorted =
                sort-IsSorted (before picked q.order) (before_total q.order) (before_trans q.order)
                  _;
            cut_out = cut_out;
            cut_lem = c;
            shown = yes_it c;
          }
        ]
    where
      no :
          windowed q.window (sort (before picked q.order) (found tested q.conditions rows)) ≡ none
          → ⊥
      no n = cc (e, n)

      yes_it :
          {cut_out : List R}
          → windowed q.window (sort (before picked q.order) (found tested q.conditions rows))
            ≡ some cut_out
          → answer ≡ map (projected picked q.columns) cut_out
      yes_it c = cc (e, c)

abbrev evaluate_source :
    Source → Select StringMap → Tables StringMap → Option (List (List (Value StringMap)))
evaluate_source parameters q t = evaluated parameter_column parameter_column q t.parameters
evaluate_source events_of_parameters q t =
    evaluated event_of parameter_of q (joined t.ledger_events t.parameters)

evaluate_source_sound :
    (source : Source) (q : Select StringMap) (t : Tables StringMap)
    (rows : List (List (Value StringMap)))
    → evaluate_source source q t ≡ some rows
    → AnswersFrom source q t rows
evaluate_source_sound parameters q t rows e =
    evaluated-Answers parameter_column parameter_column q t.parameters rows e
evaluate_source_sound events_of_parameters q t rows e =
    evaluated-Answers event_of parameter_of q (joined t.ledger_events t.parameters) rows e

none≢some : {A : Type 0} (a : A) → (e : none ≡ some a) → ⊥
none≢some a e = cc

-- The answer to a query; `none` is an error.
abbrev evaluate_query : Query StringMap → Tables StringMap → Option (List (List (Value StringMap)))
evaluate_query (select q) t = evaluate_source q.source q t
evaluate_query (count source conditions) t =
    some ((number (pos (counted source conditions t)) ∷ []) ∷ [])

module _ (rejects : Query StringMap → Bool) where
  abbrev answer : Query StringMap → Tables StringMap → Option (List (List (Value StringMap)))
  answer q t = if rejects q then none else evaluate_query q t

  abbrev head_of :
      Option (List (List (Value StringMap))) → Outcome (Option (List (Value StringMap)))
  head_of none = fails (other "rejected")
  head_of (some []) = returns none
  head_of (some (row ∷ rows)) = returns (some row)

  abbrev all_of : Option (List (List (Value StringMap))) → Outcome (Rows StringMap)
  all_of none = fails (other "rejected")
  all_of (some rows) = returns (record { read = rows; ended = none })

  abbrev executed_in : Option (Tables StringMap) → SqlWorld → Outcome (Unit {0}) × SqlWorld
  executed_in none w = (fails (other "rejected"), w)
  executed_in (some t) w = (returns tt, record { tables = t; clock = suc w.clock })

  abbrev pub memory_pool : Pool SqlWorld StringMap
  memory_pool = record {
    exec = λ s w. executed_in (after w.clock s w.tables) w;
    query_row = λ q w. (head_of (answer q w.tables), w);
    query = λ q w. (all_of (answer q w.tables), w);
    scan_error = other "cannot scan";
  }

  evaluate_query_sound :
      (q : Query StringMap) (t : Tables StringMap) (rows : List (List (Value StringMap)))
      → evaluate_query q t ≡ some rows
      → AnswersQuery q t rows
  evaluate_query_sound (select q) t rows e = evaluate_source_sound q.source q t rows e
  evaluate_query_sound (count source conditions) t rows e = cc

  answer_sound :
      (q : Query StringMap) (t : Tables StringMap) (rows : List (List (Value StringMap)))
      → answer q t ≡ some rows
      → AnswersQuery q t rows
  answer_sound q t rows e = elim (Bool-cases (rejects q)) [
    | inl r ↦ absurd (never r)
    | inr r ↦ evaluate_query_sound q t rows (rw r at e)
  ]
    where
      never : rejects q ≡ true → ⊥
      never r = none≢some _ (rw r at e)

  head_lem :
      (q : Query StringMap) (t : Tables StringMap) (a : Option (List (List (Value StringMap))))
      → ((rows : List (List (Value StringMap))) → a ≡ some rows → AnswersQuery q t rows)
      → AnsweredRow q t (head_of a)
  head_lem q t none h = tt
  head_lem q t (some []) h = h [] refl
  head_lem q t (some (row ∷ rows)) h = (rows, h (row ∷ rows) refl)

  all_lem :
      (q : Query StringMap) (t : Tables StringMap) (a : Option (List (List (Value StringMap))))
      → ((rows : List (List (Value StringMap))) → a ≡ some rows → AnswersQuery q t rows)
      → AnsweredRows q t (all_of a)
  all_lem q t none h = tt
  all_lem q t (some rows) h = λ e. h rows refl

  executed_lem :
      (s : Statement StringMap) (w : SqlWorld) (o : Option (Tables StringMap))
      → after w.clock s w.tables ≡ o
      → Executed s w.tables (executed_in o w).0 (executed_in o w).1.tables
  executed_lem s w none e = inl refl
  executed_lem s w (some t) e = (w.clock, e)

  pub memory_pool-RunsSql : RunsSql memory_pool (λ w. w.tables)
  memory_pool-RunsSql = record {
    executed = λ s w. executed_lem s w _ refl;
    answered_row = λ q w. head_lem q w.tables _ (answer_sound q w.tables);
    row_reads = λ q w. refl;
    answered_rows = λ q w. all_lem q w.tables _ (answer_sound q w.tables);
    rows_reads = λ q w. refl;
    scan_fails = λ r e. cc;
  }

pub memory_json-ReadsBack : ReadsBack memory_json
memory_json-ReadsBack = record { read_back = λ m d e. cc; marshal_answers = λ m p. cc }

-- The pool that rejects what PostgreSQL rejects of the program's queries.
abbrev pub strict_pool : Pool SqlWorld StringMap
strict_pool = memory_pool has_empty_default

pub strict_pool-AnalysesUuids : AnalysesUuids strict_pool
strict_pool-AnalysesUuids = record {
  rejects_row = λ q w h. ("rejected", rw h);
  rejects_rows = λ q w h. ("rejected", rw h);
}

abbrev pub sql_env : Env SqlWorld
sql_env = record {
  new_uuid = λ w. (returns "00000000-0000-4000-8000-000000000002", w);
  now = λ w. (returns w.clock, record w { clock = suc w.clock });
}

-- An empty cache that forgets what it is told.
abbrev pub sql_cache : Cache SqlWorld Parameter
sql_cache = record {
  client = record {
    get = λ k w. (fails (other "redis: nil"), w);
    set = λ k d n w. (returns tt, w);
    del = λ k w. (returns tt, w);
  };
  json = record { marshal = λ p. returns p; unmarshal = λ p. returns p };
}
