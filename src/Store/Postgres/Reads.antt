-- ===== src/Store/Postgres/Reads.antt =====
-- What the queries of `PostgresStore` for a version find.
use truthmetal.Base.{
  String, ◌≡◌, refl, sym, ap, ◌∙◌, subst, inl, inr, true, false, ◌&&◌, Option, none, some, List, [],
  ◌∷◌, map, ◌==◌, string_dec, arith, All, take, drop, ==_iff,
}
use truthmetal.Base.Sorting.{
  Reorders, All-Reorders, Reorders-sym, Reorders-nil, All-filter, filter_nil,
}
use truthmetal.Exec.{Error, not_found, Outcome, returns, fails, panics, continue, lift}
use truthmetal.Model.{Parameter}
use truthmetal.Store.Db.{Among, is_canonical_of}
use truthmetal.Store.Contract.{FoundCanonical, FoundById}
use truthmetal.Store.Sql.{Value, Pool}
use truthmetal.Store.Sql.Tables.{ParameterRow, Tables, parameter_column}
use truthmetal.Store.Sql.Meaning.{projected, found, satisfies, AnsweredRow}
use truthmetal.Store.Postgres.{
  canonical_conditions, id_conditions, canonical_query, id_query, parameter_columns, scanned,
  outcome,
}
use truthmetal.Store.Postgres.Scan.{MapJson}
use truthmetal.Store.Postgres.Writes.{
  parameter_at, db_of, and_true, id_condition, scan_parameter-projected,
}

module _ {A : Type 0} where
  -- The head of a limited answer, and of a whole one.
  limited_head :
      {B : Type 0} (f : A → B) (row : B) (rest : List B) (arranged cut_out : List A)
      → some (take 1 (drop 0 arranged)) ≡ some cut_out
      → row ∷ rest ≡ map f cut_out
      → (a : A) × (others : List A) × (arranged ≡ a ∷ others) × (row ≡ f a)
  limited_head f row rest [] [] e h = cc
  limited_head f row rest [] (c ∷ cs) e h = cc
  limited_head f row rest (a ∷ others) [] e h = cc
  limited_head f row rest (a ∷ others) (c ∷ cs) e h = (a, others, refl, cc)

  whole_head :
      {B : Type 0} (f : A → B) (row : B) (rest : List B) (arranged cut_out : List A)
      → some arranged ≡ some cut_out
      → row ∷ rest ≡ map f cut_out
      → (a : A) × (others : List A) × (arranged ≡ a ∷ others) × (row ≡ f a)
  whole_head f row rest [] [] e h = cc
  whole_head f row rest [] (c ∷ cs) e h = cc
  whole_head f row rest (a ∷ others) [] e h = cc
  whole_head f row rest (a ∷ others) (c ∷ cs) e h = (a, others, refl, cc)

  limited_nil :
      {B : Type 0} (f : A → B) (arranged cut_out : List A)
      → some (take 1 (drop 0 arranged)) ≡ some cut_out
      → [] ≡ map f cut_out
      → arranged ≡ []
  limited_nil f [] cut_out e h = refl
  limited_nil f (a ∷ others) [] e h = cc
  limited_nil f (a ∷ others) (c ∷ cs) e h = cc

  whole_nil :
      {B : Type 0} (f : A → B) (arranged cut_out : List A)
      → some arranged ≡ some cut_out
      → [] ≡ map f cut_out
      → arranged ≡ []
  whole_nil f arranged [] e h = cc
  whole_nil f arranged (c ∷ cs) e h = cc

module _ {Doc : Type 0} (map_json : MapJson Doc) where
  abbrev at : ParameterRow Doc → Parameter
  at = parameter_at map_json

  Among-later :
      (r : ParameterRow Doc) (rows xs : List (ParameterRow Doc))
      → All (λ x. Among (at x) (map at rows)) xs
      → All (λ x. Among (at x) (map at (r ∷ rows))) xs
  Among-later r rows [] h = tt
  Among-later r rows (x ∷ xs) (a, h) = (inr a, Among-later r rows xs h)

  Among-All : (rows : List (ParameterRow Doc)) → All (λ x. Among (at x) (map at rows)) rows
  Among-All [] = tt
  Among-All (r ∷ rows) = (inl refl, Among-later r rows rows (Among-All rows))

  canonical_condition :
      (namespace key : String) (r : ParameterRow Doc)
      → satisfies (parameter_column r) (canonical_conditions namespace key)
        ≡ is_canonical_of namespace key (at r)
  unfolding string_dec
  canonical_condition namespace key r =
      ap (λ b. (r.namespace == namespace) && ((r.key == key) && b)) (and_true _)

  -- The row is one of those that are asked for.
  abbrev Asked : List (String × Value Doc) → List (ParameterRow Doc) → ParameterRow Doc → Type 0
  Asked conditions rows x =
      Among (at x) (map at rows) × (satisfies (parameter_column x) conditions ≡ true)

  arranged_head :
      (conditions : List (String × Value Doc)) (rows arranged others : List (ParameterRow Doc))
      (r : ParameterRow Doc)
      → Reorders arranged (found parameter_column conditions rows)
      → arranged ≡ r ∷ others
      → Asked conditions rows r
  arranged_head conditions rows arranged others r p e =
      (subst (All (Asked conditions rows)) e (
        All-Reorders (Asked conditions rows) (Reorders-sym p)
          (All-filter (λ x. Among (at x) (map at rows)) _ rows (Among-All rows)))).0

  none_canonical :
      (namespace key : String) (rows : List (ParameterRow Doc))
      → All (λ r. satisfies (parameter_column r) (canonical_conditions namespace key) ≡ false) rows
      → All (λ p. is_canonical_of namespace key p ≡ false) (map at rows)
  none_canonical namespace key [] h = tt
  none_canonical namespace key (r ∷ rows) (f, h) =
      (sym (canonical_condition namespace key r) ∙ f, none_canonical namespace key rows h)

  none_of_id :
      (id : String) (rows : List (ParameterRow Doc))
      → All (λ r. satisfies (parameter_column r) (id_conditions id) ≡ false) rows
      → All (λ p. (e : p.id ≡ id) → ⊥) (map at rows)
  none_of_id id [] h = tt
  none_of_id id (r ∷ rows) (f, h) = (differs, none_of_id id rows h)
    where
      differs : r.id ≡ id → ⊥
      differs e = ground (arith, id_condition id r)

  module _ {W : Type 0} (pool : Pool W Doc) where
    scanned_row :
        (row : List (Value Doc)) (r : ParameterRow Doc)
        → row ≡ projected parameter_column parameter_columns r
        → scanned pool map_json (some row) ≡ returns (at r)
    unfolding scanned
    scanned_row row r e = rw e (ap outcome (scan_parameter-projected map_json pool.scan_error r))

    -- The answers to the query for a canonical version are those of the contract.
    pub canonical_found :
        (namespace key : String) (t : Tables Doc) (o : Outcome (Option (List (Value Doc)))) (w : W)
        → AnsweredRow (canonical_query namespace key) t o
        → FoundCanonical namespace key
            (db_of map_json t)
            (continue o (λ row. lift (scanned pool map_json row)) w).0
    unfolding scanned
    canonical_found namespace key t (returns none) w a = none_canonical namespace key t.parameters (
        filter_nil _ t.parameters (
          Reorders-nil a.reorders (
            limited_nil (projected parameter_column parameter_columns) a.arranged a.cut_out
              a.cut_lem a.shown)))
    canonical_found namespace key t (returns (some row)) w (rest, a) =
        let (r, others, e, shown) =
          limited_head (projected parameter_column parameter_columns) row rest a.arranged a.cut_out
            a.cut_lem a.shown in
        let (among, fits) =
          arranged_head (canonical_conditions namespace key) t.parameters a.arranged others r
            a.reorders e in
        subst (FoundCanonical namespace key (db_of map_json t)) (sym (scanned_row row r shown))
          (among, sym (canonical_condition namespace key r) ∙ fits)
    canonical_found namespace key t (fails (not_found r)) w a = absurd a
    canonical_found namespace key t (fails (Error.other m)) w a = tt
    canonical_found namespace key t panics w a = absurd a

    -- So are those to the query for an id.
    pub id_found :
        (id : String) (t : Tables Doc) (o : Outcome (Option (List (Value Doc)))) (w : W)
        → AnsweredRow (id_query id) t o
        → FoundById id (db_of map_json t) (continue o (λ row. lift (scanned pool map_json row)) w).0
    unfolding scanned
    id_found id t (returns none) w a = none_of_id id t.parameters (
        filter_nil _ t.parameters (
          Reorders-nil a.reorders (
            whole_nil (projected parameter_column parameter_columns) a.arranged a.cut_out a.cut_lem
              a.shown)))
    id_found id t (returns (some row)) w (rest, a) =
        let (r, others, e, shown) =
          whole_head (projected parameter_column parameter_columns) row rest a.arranged a.cut_out
            a.cut_lem a.shown in
        let (among, fits) =
          arranged_head (id_conditions id) t.parameters a.arranged others r a.reorders e in
        subst (FoundById id (db_of map_json t)) (sym (scanned_row row r shown))
          (among, (==_iff r.id id).0 (sym (id_condition id r) ∙ fits))
    id_found id t (fails (not_found r)) w a = absurd a
    id_found id t (fails (Error.other m)) w a = tt
    id_found id t panics w a = absurd a
