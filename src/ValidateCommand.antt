-- ===== src/ValidateCommand.antt =====
-- cmd/validate-golden-suite/main.go: the exit code of `main`, and what it writes.
mod Samples
use truthmetal.Base.{
  ℕ, String, ◌≡◌, ◌↔◌, refl, subst, sym, ap, ◌∙◌, Bool, Option, none, some, List, [], ◌∷◌, Result,
  ok, err, arith,
}
use truthmetal.GoldenSuite.Contract.{Manifest, QualityGateContract, CaseSetContract, Summary}
use truthmetal.GoldenSuite.Errors.{SuiteError}
use truthmetal.GoldenSuite.Libs.{Libs}
use truthmetal.GoldenSuite.Dir.{FileSystem, Decoder, Act, validate_dir}
use truthmetal.GoldenSuite.Dir.Spec.{IsAcceptedSuite}
use truthmetal.GoldenSuite.Dir.Laws.{validate_dir_iff}
use truthmetal.GoldenSuite.Gates.Spec.{IsKeyOrder}

-- How the command ends: the exit code stands behind the name.
pub data Ended : Type 0 where
  -- 0, the summary on the standard output
  printed : Summary → Ended
  -- 2, the usage on the standard error
  usage : Ended
  -- 1, the error of the validation on the standard error
  invalid : SuiteError → Ended
  -- 1, the error of the encoder on the standard error
  unprinted : Ended

abbrev pub exit_code : Ended → ℕ
exit_code (printed summary) = 0
exit_code usage = 2
exit_code (invalid e) = 1
exit_code unprinted = 1

module _ {W : Type 0} (fs : FileSystem W) (lib : Libs) (key_order : List String)
    (manifest_json : Decoder Manifest) (gates_json : Decoder QualityGateContract)
    (cases_json : Decoder CaseSetContract)
    -- `encoder.Encode(summary)`, whether it succeeds
    (encode : Summary → W → Option (Unit {0}) × W) where
  abbrev encoded : Summary → Option (Unit {0}) × W → Ended × W
  encoded summary (some u, w) = (printed summary, w)
  encoded summary (none, w) = (unprinted, w)

  abbrev validated : Result SuiteError Summary × W → Ended × W
  validated (err e, w) = (invalid e, w)
  validated (ok summary, w) = encoded summary (encode summary w)

  -- The arguments with the name of the program; then the world.
  pub main : List String → W → Ended × W
  main (program ∷ directory ∷ []) w =
      validated (validate_dir fs lib key_order manifest_json gates_json cases_json directory w)
  main _ w = (usage, w)

  -- The command was given one argument, the directory of a suite that is accepted, and could write
  -- its summary.
  pub record Accepts (args : List String) (w : W) (summary : Summary) : Type 0 where
    pub program : String
    pub directory : String
    pub given : args ≡ program ∷ directory ∷ []
    pub suite : IsAcceptedSuite fs lib manifest_json gates_json cases_json directory w summary
    pub written :
        (encode summary
          (validate_dir fs lib key_order manifest_json gates_json cases_json directory w).1).0
        ≡ some tt

  encoded_printed :
      (summary s : Summary) (r : Option (Unit {0}) × W)
      → (encoded summary r).0 ≡ printed s
      → (summary ≡ s) × (r.0 ≡ some tt)
  encoded_printed summary s (some u, w) h = (cc, refl)
  encoded_printed summary s (none, w) h = cc

  validated_printed :
      (r : Result SuiteError Summary × W) (s : Summary)
      → (validated r).0 ≡ printed s
      → (r.0 ≡ ok s) × ((encode s r.1).0 ≡ some tt)
  validated_printed (err e, w) s h = cc
  validated_printed (ok summary, w) s h =
      let (same, written) = encoded_printed summary s (encode summary w) h in
      (ap ok same, subst (λ x. (encode x w).0 ≡ some tt) same written)

  validated_ok :
      (r : Result SuiteError Summary × W) (s : Summary)
      → r.0 ≡ ok s
      → (encode s r.1).0 ≡ some tt
      → (validated r).0 ≡ printed s
  validated_ok (err e, w) s h k = cc
  validated_ok (ok summary, w) s h k =
      let same : summary ≡ s = cc in rw same (ap (λ o. (encoded s (o, (encode s w).1)).0) k)

  main-Accepts :
      IsKeyOrder key_order
      → (args : List String) (w : W) (summary : Summary) → (main args w).0 ≡ printed summary
      → Accepts args w summary
  unfolding main
  main-Accepts o (program ∷ directory ∷ []) w summary h =
      let (e, written) =
        validated_printed
          (validate_dir fs lib key_order manifest_json gates_json cases_json directory w) summary
          h in
      record {
        program = program;
        directory = directory;
        given = refl;
        suite =
            (validate_dir_iff fs lib key_order manifest_json gates_json cases_json o directory w
                summary).0
              e;
        written = written;
      }
  main-Accepts o [] w summary h = cc
  main-Accepts o (program ∷ []) w summary h = cc
  main-Accepts o (program ∷ directory ∷ more ∷ others) w summary h = cc

  main_prints :
      IsKeyOrder key_order
      → (args : List String) (w : W) (summary : Summary) → Accepts args w summary
      → (main args w).0 ≡ printed summary
  unfolding main
  main_prints o args w summary a = rw a.given (
      validated_ok (validate_dir fs lib key_order manifest_json gates_json cases_json a.directory w)
        summary
        ((validate_dir_iff fs lib key_order manifest_json gates_json cases_json o a.directory w
            summary).1
          a.suite)
        a.written)

  printed_of_zero : (e : Ended) → exit_code e ≡ 0 → (summary : Summary) × (e ≡ printed summary)
  printed_of_zero (printed summary) h = (summary, refl)
  printed_of_zero usage h = absurd (omega arith)
  printed_of_zero (invalid e) h = absurd (omega arith)
  printed_of_zero unprinted h = absurd (omega arith)

  -- If Go ranges over exactly the required metrics, the command prints a summary exactly if it was
  -- given one argument, the directory of a suite that `ValidateDir` accepts with all that this
  -- says, the summary is that of the suite, and it can be written; and it ends with the exit code
  -- 0 exactly if it prints a summary.
  pub main_iff :
      IsKeyOrder key_order
      → (args : List String) (w : W) (summary : Summary)
      → (((main args w).0 ≡ printed summary) ↔ Accepts args w summary)
        × ((exit_code (main args w).0 ≡ 0) ↔ ((s : Summary) × ((main args w).0 ≡ printed s)))
  main_iff o args w summary = (
    (main-Accepts o args w summary, main_prints o args w summary),
    (printed_of_zero (main args w).0, λ p. ap exit_code p.1),
  )
