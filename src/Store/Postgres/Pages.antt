-- ===== src/Store/Postgres/Pages.antt =====
-- The pages that `PostgresStore.QueryAudit` returns.
use mathlib.Core.List
use truthmetal.Base.{
  String, ◌≡◌, refl, sym, ap, ap₂, ◌∙◌, Bool, ◌&&◌, Option, none, some, List, [], ◌∷◌, ◌++◌, map,
  ok, ◌==◌, string_dec, arith, Bool-cases, filter, length, take, drop, subst, subst₂, inl, inr,
}
use truthmetal.Base.Int.{ℤ, pos, negsuc}
use truthmetal.Base.Sorting.{Reorders, Reorders-map, IsSorted-map, take-map, drop-map, length-map}
use truthmetal.Exec.{Error, returns, lift, >>=-eq-returns}
use truthmetal.Model.{LedgerEvent}
use truthmetal.Store.Audit.{IsPage, audited, belonging, newest_first}
use truthmetal.Store.Sql.{Value, text, number, time, json, null, Pool}
use truthmetal.Store.Sql.Tables.{ParameterRow, EventRow, Tables}
use truthmetal.Store.Sql.Meaning.{
  projected, found, AnswersQuery, AnsweredRow, AnsweredRows, RunsSql, satisfies, cut, joined,
  joined_with, event_of, parameter_of,
}
use truthmetal.Store.Postgres.{
  key_conditions, event_columns, page_query, total_query, outcome, scanned_total, query_audit,
  postgres_store,
}
use truthmetal.Store.Postgres.Scan.{MapJson, scan_event, scan_rows, scan_total}
use truthmetal.Store.Postgres.Scanned.{ended_none, outcome_ok, scanned_all}
use truthmetal.Store.Postgres.Writes.{parameter_at, event_at, db_of, and_true}

module _ {A B : Type 0} (f : A → B) where
  cut-map :
      (limit offset : ℤ) (xs ys : List A)
      → cut limit offset xs ≡ some ys
      → cut limit offset (map f xs) ≡ some (map f ys)
  cut-map (pos l) (pos o) xs ys e =
      let same : take l (drop o xs) ≡ ys = cc in
      ap some (ap (take l) (drop-map f o xs) ∙ take-map f l (drop o xs) ∙ ap (map f) same)
  cut-map (pos l) (negsuc o) xs ys e = cc
  cut-map (negsuc l) (pos o) xs ys e = cc
  cut-map (negsuc l) (negsuc o) xs ys e = cc

filter-append :
    {A : Type 0} (p : A → Bool) (xs ys : List A) → filter p (xs ++ ys) ≡ filter p xs ++ filter p ys
filter-append p [] ys = refl
filter-append p (x ∷ xs) ys = elim (Bool-cases (p x)) [
  | inl t ↦ rw t (ap (λ zs. x ∷ zs) (filter-append p xs ys))
  | inr f ↦ rw f (filter-append p xs ys)
]

number_injective :
    {Doc : Type 0} (a b : ℤ) (rest : List (List (Value Doc)))
    → (number a ∷ []) ∷ rest ≡ (number b ∷ []) ∷ []
    → a ≡ b
number_injective a b rest e = cc

module _ {Doc : Type 0} (map_json : MapJson Doc) where
  abbrev event_in : EventRow Doc × ParameterRow Doc → LedgerEvent
  event_in r = event_at map_json r.0

  scan_event-projected :
      (scan_error : Error) (r : EventRow Doc × ParameterRow Doc)
      → scan_event scan_error map_json (projected event_of event_columns r) ≡ ok (event_in r)
  unfolding scan_event string_dec
  scan_event-projected scan_error r = refl

  module _ (namespace key : String) where
    key_condition :
        (r : EventRow Doc × ParameterRow Doc)
        → satisfies (parameter_of r) (key_conditions namespace key)
          ≡ (r.1.namespace == namespace && r.1.key == key)
    unfolding string_dec
    key_condition r = ap (λ b. (r.1.namespace == namespace) && b) (and_true (r.1.key == key))

    -- The rows of the join that satisfy the conditions are the events that belong to the key.
    found-belonging :
        (e : EventRow Doc) (ps : List (ParameterRow Doc))
        → map event_in (found parameter_of (key_conditions namespace key) (joined_with e ps))
          ≡ belonging namespace key (event_at map_json e) (map (parameter_at map_json) ps)
    found-belonging e [] = refl
    found-belonging e (p ∷ ps) = elim (Bool-cases (p.id == e.parameter_id)) [
      | inl t ↦
          rw (t, key_condition (e, p))
            (elim (Bool-cases (p.namespace == namespace && p.key == key)) [
              | inl u ↦ rw u (ap (λ x. event_at map_json e ∷ x) (found-belonging e ps))
              | inr f ↦ rw f (found-belonging e ps)
            ])
      | inr f ↦ rw f (found-belonging e ps)
    ]

    found-audited :
        (es : List (EventRow Doc)) (ps : List (ParameterRow Doc))
        → map event_in (found parameter_of (key_conditions namespace key) (joined es ps))
          ≡ audited namespace key (map (event_at map_json) es) (map (parameter_at map_json) ps)
    found-audited [] ps = refl
    found-audited (e ∷ es) ps =
        ap (map event_in) (filter-append _ (joined_with e ps) (joined es ps))
        ∙ List.map-append event_in _ _
        ∙ ap₂ (λ xs ys. xs ++ ys) (found-belonging e ps) (found-audited es ps)

    -- An answer to the two queries is a page.
    answers-IsPage :
        (limit offset : ℤ) (t : Tables Doc) (answer rest : List (List (Value Doc))) (total : ℤ)
        → AnswersQuery (page_query namespace key limit offset) t answer
        → AnswersQuery (total_query namespace key) t ((number total ∷ []) ∷ rest)
        → (cut_out : List (EventRow Doc × ParameterRow Doc)) × (answer
            ≡ map (projected event_of event_columns) cut_out)
          × IsPage namespace key limit offset (db_of map_json t) (map event_in cut_out) total
    unfolding string_dec
    answers-IsPage limit offset t answer rest total a c = (
      a.cut_out,
      a.shown,
      record {
        arranged = map event_in a.arranged;
        reorders =
            subst (Reorders (map event_in a.arranged)) (found-audited t.ledger_events t.parameters)
              (Reorders-map event_in a.reorders);
        sorted = IsSorted-map event_in _ newest_first a.arranged (λ x y h. ground arith) a.sorted;
        shown = cut-map event_in limit offset a.arranged a.cut_out a.cut_lem;
        counted =
            number_injective total _ rest c
            ∙ ap pos (
                sym (
                  length-map event_in (
                    found parameter_of (key_conditions namespace key)
                      (joined t.ledger_events t.parameters)))
                ∙ ap length (found-audited t.ledger_events t.parameters));
      },
    )

  scan_total-number :
      (scan_error : Error) (row : List (Value Doc)) (total : ℤ)
      → scan_total scan_error map_json row ≡ ok total
      → row ≡ number total ∷ []
  unfolding scan_total
  scan_total-number scan_error [] total e = cc
  scan_total-number scan_error (number n ∷ []) total e = cc
  scan_total-number scan_error (number n ∷ v ∷ vs) total e = cc
  scan_total-number scan_error (text s ∷ vs) total e = cc
  scan_total-number scan_error (time t ∷ vs) total e = cc
  scan_total-number scan_error (json d ∷ vs) total e = cc
  scan_total-number scan_error (null ∷ vs) total e = cc

  module _ {W : Type 0} (pool : Pool W Doc) (namespace key : String) where
    total_of :
        (t : Tables Doc) (row : Option (List (Value Doc))) (total : ℤ)
        → AnsweredRow (total_query namespace key) t (returns row)
        → scanned_total pool map_json row ≡ returns total
        → (rest : List (List (Value Doc))) × AnswersQuery
            (total_query namespace key)
            t
            ((number total ∷ []) ∷ rest)
    unfolding scanned_total
    total_of t none total a e = cc
    total_of t (some row) total (rest, a) e =
        let same =
          scan_total-number pool.scan_error row total
            (outcome_ok (scan_total pool.scan_error map_json row) total e) in
        (rest, subst (λ x. AnswersQuery (total_query namespace key) t (x ∷ rest)) same a)

    module _ {tables : W → Tables Doc} (sql : RunsSql pool tables) where
      -- What `QueryAudit` returns is a page of the audit of the key.
      pub postgres_audit-IsPage :
          (limit offset : ℤ) (w : W) (page : List LedgerEvent) (total : ℤ)
          → ((postgres_store pool map_json).query_audit namespace key limit offset w).0
            ≡ returns (page, total)
          → IsPage namespace key limit offset (db_of map_json (tables w)) page total
      unfolding postgres_store query_audit
      postgres_audit-IsPage limit offset w page total h =
          let q = total_query namespace key in
          let (row, e₁, h₁) = >>=-eq-returns (pool.query_row q) _ w h in
          let (n, e₂, h₂) = >>=-eq-returns (lift (scanned_total pool map_json row)) _ _ h₁ in
          let (rows, e₃, h₃) =
            >>=-eq-returns (pool.query (page_query namespace key limit offset)) _ _ h₂ in
          let (events, e₄, h₄) =
            >>=-eq-returns
              (lift (outcome (scan_rows (scan_event pool.scan_error map_json) rows.read))) _ _ h₃ in
          let (done, pair) = ended_none rows.ended (events, n) (page, total) h₄ in
          let answered =
            subst (λ t. AnswersQuery (page_query namespace key limit offset) t rows.read)
              (sql.row_reads q w)
              (subst
                (AnsweredRows (page_query namespace key limit offset)
                  (tables (pool.query_row q w).1))
                e₃
                (sql.answered_rows (page_query namespace key limit offset) (pool.query_row q w).1)
                done) in
          let (rest, counted) =
            total_of (tables w) row n (subst (AnsweredRow q (tables w)) e₁ (sql.answered_row q w))
              e₂ in
          let (cut_out, shown, valid) =
            answers-IsPage namespace key limit offset (tables w) rows.read rest n answered
              counted in
          let read =
            scanned_all (scan_event pool.scan_error map_json) _ event_in
              (scan_event-projected pool.scan_error) cut_out rows.read events shown e₄ in
          subst₂ (IsPage namespace key limit offset (db_of map_json (tables w)))
            (sym read ∙ ap (λ x. x.0) pair) (ap (λ x. x.1) pair) valid
