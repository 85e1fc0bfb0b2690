-- ===== src/GoldenSuite/Dir/Laws.antt =====
-- A directory that `ValidateDir` accepts holds a valid suite, read from regular files.
use truthmetal.Base.{
  subst, ap, sym, ◌∙◌, ◌↔◌, String, ◌≡◌, refl, List, ok, err, Result, arith, reject_if, ◌||◌, ◌!=◌,
}
use truthmetal.GoldenSuite.Contract.{Manifest, QualityGateContract, CaseSetContract, Summary}
use truthmetal.GoldenSuite.Errors.{SuiteError, filenames_not_pinned}
use truthmetal.GoldenSuite.Libs.{Libs}
use truthmetal.GoldenSuite.Manifest.Laws.{validate_manifest_iff}
use truthmetal.GoldenSuite.Gates.Laws.{validate_quality_gates_iff}
use truthmetal.GoldenSuite.Gates.Spec.{IsKeyOrder}
use truthmetal.GoldenSuite.Cases.Laws.{validate_case_set_iff}
use truthmetal.GoldenSuite.Dir.{
  FileSystem, Decoder, Act, continue, ◌>>=◌, pure, decode_file, validate_dir,
}
use truthmetal.GoldenSuite.Dir.Spec.{behind, IsAcceptedSuite}
use truthmetal.GoldenSuite.Dir.Reading.{decode_file_complete, named, decoded}

module _ {W A B : Type 0} where
  >>=-eq-ok :
      (m : Act W A) (f : A → Act W B) (w : W) {b : B}
      → ((m >>= f) w).0 ≡ ok b
      → (a : A) × ((m w).0 ≡ ok a) × ((f a (m w).1).0 ≡ ok b)
  >>=-eq-ok m f w h = go (m w).0 refl h
    where
      go :
          (r : Result SuiteError A) {b : B}
          → (m w).0 ≡ r
          → (continue r f (m w).1).0 ≡ ok b
          → (a : A) × ((m w).0 ≡ ok a) × ((f a (m w).1).0 ≡ ok b)
      go (ok a) e h = (a, e, h)
      go (err e) _ h = cc

  goes_on :
      (r : Result SuiteError A × W) (f : A → Act W B) {a : A} {v : W}
      → r ≡ (ok a, v)
      → continue r.0 f r.1 ≡ f a v
  goes_on r f e = ap (λ x. continue x.0 f x.1) e

pinned_names :
    (m : Manifest)
    → reject_if
        (m.accepted_artifacts.quality_gate_file != "quality-gates.json"
          || m.accepted_artifacts.case_set_file != "cases.json")
        filenames_not_pinned
      ≡ ok tt
    → (m.accepted_artifacts.quality_gate_file ≡ "quality-gates.json")
      × (m.accepted_artifacts.case_set_file ≡ "cases.json")
pinned_names m h = ground arith

names_pinned :
    (m : Manifest)
    → m.accepted_artifacts.quality_gate_file ≡ "quality-gates.json"
    → m.accepted_artifacts.case_set_file ≡ "cases.json"
    → reject_if
        (m.accepted_artifacts.quality_gate_file != "quality-gates.json"
          || m.accepted_artifacts.case_set_file != "cases.json")
        filenames_not_pinned
      ≡ ok tt
names_pinned m h k = ground arith

module _ {W : Type 0} (fs : FileSystem W) where
  module _ (lib : Libs) (key_order : List String) (manifest_json : Decoder Manifest)
      (gates_json : Decoder QualityGateContract) (cases_json : Decoder CaseSetContract) where
    validate_dir_sound :
        IsKeyOrder key_order
        → (directory : String) (w : W) (summary : Summary)
        → (validate_dir fs lib key_order manifest_json gates_json cases_json directory w).0
          ≡ ok summary
        → IsAcceptedSuite fs lib manifest_json gates_json cases_json directory w summary
    unfolding validate_dir
    validate_dir_sound o directory w summary h =
        let (m, em, h₁) =
          >>=-eq-ok (decode_file fs manifest_json (fs.join directory "manifest.json")) _ w h in
        let (_, pinned, h₂) = >>=-eq-ok (pure _) _ _ h₁ in
        let (g, eg, h₃) = >>=-eq-ok (decode_file fs gates_json _) _ _ h₂ in
        let (c, ec, h₄) = >>=-eq-ok (decode_file fs cases_json _) _ _ h₃ in
        let (_, vm, h₅) = >>=-eq-ok (pure _) _ _ h₄ in
        let (_, vg, h₆) = >>=-eq-ok (pure _) _ _ h₅ in
        let (_, vc, h₇) = >>=-eq-ok (pure _) _ _ h₆ in
        let names = pinned_names m.1 pinned in
        let (rm, wm) = decoded fs manifest_json directory w refl em in
        let v = behind fs (fs.join directory "manifest.json") rm.file w in
        let gate_file = m.1.accepted_artifacts.quality_gate_file in
        let case_file = m.1.accepted_artifacts.case_set_file in
        let eg' =
          subst (λ x. (decode_file fs gates_json (fs.join directory gate_file) x).0 ≡ ok g) wm eg in
        let (rg, wg) = decoded fs gates_json directory v names.0 eg' in
        let ec' =
          subst (λ x. (decode_file fs cases_json (fs.join directory case_file) x).0 ≡ ok c)
            (ap (λ x. (decode_file fs gates_json (fs.join directory gate_file) x).1) wm ∙ wg) ec in
        record {
          manifest = m.1;
          gates = g.1;
          cases = c.1;
          manifest_bytes = m.0;
          gate_bytes = g.0;
          case_bytes = c.0;
          reads_manifest = rm;
          gate_name = names.0;
          case_name = names.1;
          reads_gates = rg;
          reads_cases = (decoded fs cases_json directory _ names.1 ec').0;
          manifest_valid = (validate_manifest_iff lib m.1 g.0 c.0).0 vm;
          gates_valid = (validate_quality_gates_iff lib key_order m.1 g.1 o).0 vg;
          cases_valid = (validate_case_set_iff lib m.1 g.1 c.1).0 vc;
          summarised = ground arith;
        }

    validate_dir_complete :
        IsKeyOrder key_order
        → (directory : String) (w : W) (summary : Summary)
        → IsAcceptedSuite fs lib manifest_json gates_json cases_json directory w summary
        → (validate_dir fs lib key_order manifest_json gates_json cases_json directory w).0
          ≡ ok summary
    unfolding validate_dir
    validate_dir_complete o directory w summary a =
        let v = behind fs (fs.join directory "manifest.json") a.reads_manifest.file w in
        let u = behind fs (fs.join directory "quality-gates.json") a.reads_gates.file v in
        let t = behind fs (fs.join directory "cases.json") a.reads_cases.file u in
        ap (λ x. x.0)
          (goes_on _ _ (decode_file_complete fs manifest_json _ w a.reads_manifest)
            ∙ goes_on _ _ (ap (λ r. (r, v)) (names_pinned a.manifest a.gate_name a.case_name))
            ∙ goes_on _ _ (named fs gates_json directory v a.gate_name a.reads_gates)
            ∙ goes_on _ _ (named fs cases_json directory u a.case_name a.reads_cases)
            ∙ goes_on _ _ (
                ap (λ r. (r, t))
                  ((validate_manifest_iff lib a.manifest a.gate_bytes a.case_bytes).1
                    a.manifest_valid))
            ∙ goes_on _ _ (
                ap (λ r. (r, t))
                  ((validate_quality_gates_iff lib key_order a.manifest a.gates o).1 a.gates_valid))
            ∙ goes_on _ _ (
                ap (λ r. (r, t))
                  ((validate_case_set_iff lib a.manifest a.gates a.cases).1 a.cases_valid)))
        ∙ ap ok (sym a.summarised)

    -- If Go ranges over exactly the required metrics, `ValidateDir` returns a summary exactly if
    -- the three files are read one after another, each a regular file that is the one inspected
    -- and one JSON value with nothing behind it, the manifest pins their names and the bytes of the
    -- other two and is valid, the quality gates and the case set are valid, and the summary is
    -- theirs.
    pub validate_dir_iff :
        IsKeyOrder key_order
        → (directory : String) (w : W) (summary : Summary)
        → ((validate_dir fs lib key_order manifest_json gates_json cases_json directory w).0
            ≡ ok summary)
          ↔ IsAcceptedSuite fs lib manifest_json gates_json cases_json directory w summary
    validate_dir_iff o directory w summary =
        (validate_dir_sound o directory w summary, validate_dir_complete o directory w summary)
