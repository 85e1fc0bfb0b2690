-- ===== src/GoldenSuite/Dir.antt =====
-- `ValidateDir` and `decodeFile`, over a file system that may change between two calls.
pub mod Spec
mod Reading
pub mod Laws
use truthmetal.Base.{
  ℕ, String, Bool, true, false, not, ◌&&◌, ◌||◌, Option, none, some, List, Result, ok, err, nat_eq,
  reject_if, ◌!=◌, length, if◌then◌else◌,
}
use truthmetal.GoldenSuite.Contract.{Manifest, QualityGateContract, CaseSetContract, Summary}
use truthmetal.GoldenSuite.Errors.{
  SuiteError, filenames_not_pinned, inspect_failed, not_regular, open_failed, inspect_opened_failed,
  changed_during_validation, read_failed, decode_failed, trailing_json,
}
use truthmetal.GoldenSuite.Libs.{Libs}
use truthmetal.GoldenSuite.Manifest.{validate_manifest}
use truthmetal.GoldenSuite.Gates.{validate_quality_gates}
use truthmetal.GoldenSuite.Cases.{validate_case_set}

-- What `os.Lstat` and `file.Stat` tell: `identity` is what `os.SameFile` compares.
pub record FileInfo : Type 0 where
  pub regular : Bool
  pub identity : ℕ

-- The operating system over a state `W`; an open file is its descriptor, `none` an error.
pub record FileSystem (W : Type 0) : Type 0 where
  pub lstat : String → W → Option FileInfo × W
  pub open_file : String → W → Option ℕ × W
  pub stat : ℕ → W → Option FileInfo × W
  pub read_all : ℕ → W → Option (List ℕ) × W
  -- `filepath.Join(directory, name)`
  pub join : String → String → String

-- A `json.Decoder` that disallows unknown fields, at type `A`: the first value with the bytes
-- behind it, and whether another call of `Decode` on these returns `io.EOF`.
pub record Decoder (A : Type 0) : Type 0 where
  pub decode : List ℕ → Option (A × List ℕ)
  pub at_eof : List ℕ → Bool

-- A computation that acts on the world and returns a value or an error.
abbrev pub Act : Type 0 → Type 0 → Type 0
Act W A = W → Result SuiteError A × W

module _ {W A B : Type 0} where
  abbrev continue : Result SuiteError A → (A → Act W B) → Act W B
  continue (ok a) f w = f a w
  continue (err e) f w = (err e, w)

  infixl 5 ◌>>=◌
  abbrev pub ◌>>=◌ : Act W A → (A → Act W B) → Act W B
  ◌>>=◌ m f w = continue (m w).0 f (m w).1

module _ {W B : Type 0} where
  infixl 5 ◌>>◌
  abbrev pub ◌>>◌ : Act W (Unit {0}) → Act W B → Act W B
  m >> k = m >>= λ _. k

abbrev pub or_error : {A : Type 0} → Option A → SuiteError → Result SuiteError A
or_error none e = err e
or_error (some a) e = ok a

module _ {W A : Type 0} where
  abbrev pub pure : Result SuiteError A → Act W A
  pure r w = (r, w)

  -- A call of the operating system; `e` is what its error is wrapped in.
  abbrev pub call : (W → Option A × W) → SuiteError → Act W A
  call f e w = (or_error (f w).0 e, (f w).1)

module _ {W : Type 0} (fs : FileSystem W) where
  unfoldable pub decode_file : {A : Type 0} → Decoder A → String → Act W (List ℕ × A)
  decode_file json path = do
    info ← call (fs.lstat path) (inspect_failed path)
    pure (reject_if (not info.regular) (not_regular path))
    file ← call (fs.open_file path) (open_failed path)
    opened ← call (fs.stat file) (inspect_opened_failed path)
    pure (
        reject_if (not opened.regular || not (nat_eq info.identity opened.identity))
          (changed_during_validation path))
    content ← call (fs.read_all file) (read_failed path)
    decoded ← pure (or_error (json.decode content) (decode_failed path))
    pure (reject_if (not (json.at_eof decoded.1)) (trailing_json path))
    pure (ok (content, decoded.0))

  module _ (lib : Libs) (key_order : List String) (manifest_json : Decoder Manifest)
      (gates_json : Decoder QualityGateContract) (cases_json : Decoder CaseSetContract) where
    unfoldable pub validate_dir : String → Act W Summary
    validate_dir directory = do
      (_, manifest) ← decode_file manifest_json (fs.join directory "manifest.json")
      let accepted = manifest.accepted_artifacts
      pure (
          reject_if
            (accepted.quality_gate_file != "quality-gates.json"
              || accepted.case_set_file != "cases.json")
            filenames_not_pinned)
      (gate_bytes, gates) ← decode_file gates_json (fs.join directory accepted.quality_gate_file)
      (case_bytes, cases) ← decode_file cases_json (fs.join directory accepted.case_set_file)
      pure (validate_manifest lib manifest gate_bytes case_bytes)
      pure (validate_quality_gates lib key_order manifest gates)
      pure (validate_case_set lib manifest gates cases)
      pure (
          ok (record {
            suite_id = manifest.suite_id;
            package_id = manifest.package_id;
            case_count = length cases.cases;
            gate_status = gates.status;
            case_status = cases.status;
            signing_trust_anchor_status = manifest.signing_trust_anchor_status;
            rollout_authorized = manifest.rollout_authorized;
          }))
