-- ===== src/Store/Postgres/Scanned.antt =====
-- Answers that are scanned row by row.
use truthmetal.Base.{
  ◌≡◌, refl, sym, ap, ◌∙◌, Option, none, some, List, [], ◌∷◌, map, Result, ok, err,
}
use truthmetal.Exec.{Error, returns}
use truthmetal.Store.Sql.{Value}
use truthmetal.Store.Postgres.{ended_with, outcome}
use truthmetal.Store.Postgres.Scan.{scan_rows}

pub ended_none :
    {A : Type 0} (o : Option Error) (a b : A) → ended_with o a ≡ returns b → (o ≡ none) × (a ≡ b)
ended_none none a b e = (refl, cc)
ended_none (some x) a b e = cc

ok_injective : {A : Type 0} (a b : A) → ◌≡◌ {A = Result Error A} (ok a) (ok b) → a ≡ b
ok_injective a b e = cc

pub outcome_ok : {A : Type 0} (r : Result Error A) (a : A) → outcome r ≡ returns a → r ≡ ok a
outcome_ok (ok b) a e = cc
outcome_ok (err x) a e = cc

-- `shown` is how a row is sent, and `read` what it is read as.
module _ {Doc R A : Type 0} (scan : List (Value Doc) → Result Error A)
    (shown : R → List (Value Doc)) (read : R → A)
    (scanned : (r : R) → scan (shown r) ≡ ok (read r)) where
  scan_rows-map : (rs : List R) → scan_rows scan (map shown rs) ≡ ok (map read rs)
  unfolding scan_rows
  scan_rows-map [] = refl
  scan_rows-map (r ∷ rs) = rw (scanned r, scan_rows-map rs)

  pub scanned_all :
      (rs : List R) (sent : List (List (Value Doc))) (ys : List A)
      → sent ≡ map shown rs
      → outcome (scan_rows scan sent) ≡ returns ys
      → ys ≡ map read rs
  scanned_all rs sent ys e h =
      ok_injective ys (map read rs)
        (sym (outcome_ok (scan_rows scan sent) ys h) ∙ ap (scan_rows scan) e ∙ scan_rows-map rs)
