-- ===== src/GoldenSuite/Samples.antt =====
-- A small suite with a directory that holds it, and the theorems at these.
pub mod Suite
use Prim.Native.String.{len}
use Prim.Native.String
use truthmetal.Base.{
  ℕ, ◌%◌, String, ◌≡◌, refl, ◌↔◌, true, false, none, some, List, [], ◌∷◌, ok, string_dec,
  UniqueNonempty, Bool-cases, inl, inr, subst, sym, ap, ◌∙◌, if◌then◌else◌,
}
use truthmetal.Base.Int.{pos, add64}
use truthmetal.GoldenSuite.Contract.{
  Float64, Manifest, MetricGate, MetricMapping, QualityGateContract, CaseDefinition,
  CaseSetContract, Summary,
}
use truthmetal.GoldenSuite.Libs.{Libs, Url}
use truthmetal.GoldenSuite.Sets.{has_duplicates}
use truthmetal.GoldenSuite.Sets.Laws.{has_duplicates_iff}
use truthmetal.GoldenSuite.Hex.{
  hex_char, encode_to_string, is_hex_digit, decodes, sha256_hex, is_lower_hex,
}
use truthmetal.GoldenSuite.Hex.Laws.{
  LowersAscii, all_chars, is_ascii, is_not_upper, is_lower_digit, is_lower_hex_iff,
  is_lower_hex-sha256_hex,
}
use truthmetal.GoldenSuite.Manifest.{
  check_blocked, check_excluded, validate_source, validate_manifest,
}
use truthmetal.GoldenSuite.Manifest.Spec.{IsValidManifest}
use truthmetal.GoldenSuite.Manifest.Laws.{validate_manifest_iff}
use truthmetal.GoldenSuite.Gates.{validate_quality_gates}
use truthmetal.GoldenSuite.Gates.Spec.{required_keys, IsValidGates, IsKeyOrder}
use truthmetal.GoldenSuite.Gates.Laws.{validate_quality_gates_iff}
use truthmetal.GoldenSuite.Cases.{
  check_policy, check_documents, check_dimensions, check_case, validate_case_set,
}
use truthmetal.GoldenSuite.Cases.Spec.{IsValidCaseSet}
use truthmetal.GoldenSuite.Cases.Laws.{validate_case_set_iff}
use truthmetal.GoldenSuite.Dir.{FileSystem, Decoder, decode_file, validate_dir}
use truthmetal.GoldenSuite.Dir.Spec.{IsAcceptedSuite}
use truthmetal.GoldenSuite.Dir.Laws.{validate_dir_iff}
use truthmetal.GoldenSuite.Samples.Suite.{
  test_lib, test_lib-LowersAscii, commit, test_manifest, test_gates, test_cases, test_files,
  constant, test_summary,
}

has_duplicates_found : has_duplicates ("a" ∷ "b" ∷ "a" ∷ []) ≡ true
unfolding has_duplicates string_dec
has_duplicates_found = refl

manifest_accepted : validate_manifest test_lib test_manifest [] [] ≡ ok tt
unfolding validate_manifest validate_source is_lower_hex decodes is_hex_digit sha256_hex
    encode_to_string hex_char check_blocked check_excluded add64 string_dec
manifest_accepted = refl

gates_accepted : validate_quality_gates test_lib required_keys test_manifest test_gates ≡ ok tt
unfolding validate_quality_gates string_dec
gates_accepted = refl

cases_accepted : validate_case_set test_lib test_manifest test_gates test_cases ≡ ok tt
unfolding validate_case_set check_case check_policy check_documents check_dimensions has_duplicates
    string_dec
cases_accepted = refl

has_duplicates_iff_example :
    (has_duplicates ("a" ∷ "b" ∷ []) ≡ false) ↔ UniqueNonempty ("a" ∷ "b" ∷ [])
has_duplicates_iff_example = has_duplicates_iff ("a" ∷ "b" ∷ [])

is_lower_hex_iff_example :
    (is_lower_hex test_lib commit 40 ≡ true)
    ↔ ((len commit ≡ 40) × (40 % 2 ≡ 0) × (all_chars is_lower_digit commit ≡ true))
is_lower_hex_iff_example = is_lower_hex_iff test_lib test_lib-LowersAscii commit 40

is_lower_hex-sha256_hex_example : is_lower_hex test_lib (sha256_hex test_lib (1 ∷ [])) 64 ≡ true
is_lower_hex-sha256_hex_example =
    is_lower_hex-sha256_hex test_lib test_lib-LowersAscii (λ content. refl) (1 ∷ [])

validate_manifest_iff_example :
    (validate_manifest test_lib test_manifest (1 ∷ []) (2 ∷ []) ≡ ok tt)
    ↔ IsValidManifest test_lib test_manifest (1 ∷ []) (2 ∷ [])
validate_manifest_iff_example = validate_manifest_iff test_lib test_manifest (1 ∷ []) (2 ∷ [])

pub required_order : IsKeyOrder required_keys
unfolding string_dec
required_order = record {
  only = (refl, (refl, (refl, (refl, (refl, (refl, tt))))));
  every = (refl, (refl, (refl, (refl, (refl, (refl, tt))))));
}

validate_quality_gates_iff_example :
    (validate_quality_gates test_lib required_keys test_manifest test_gates ≡ ok tt)
    ↔ IsValidGates test_lib test_manifest test_gates
validate_quality_gates_iff_example =
    validate_quality_gates_iff test_lib required_keys test_manifest test_gates required_order

validate_case_set_iff_example :
    (validate_case_set test_lib test_manifest test_gates test_cases ≡ ok tt)
    ↔ IsValidCaseSet test_lib test_manifest test_gates test_cases
validate_case_set_iff_example = validate_case_set_iff test_lib test_manifest test_gates test_cases

pub directory_accepted :
    (validate_dir test_files test_lib required_keys
      (constant test_manifest)
      (constant test_gates)
      (constant test_cases)
      "v1"
      tt).0
    ≡ ok test_summary
unfolding validate_dir decode_file validate_manifest validate_source is_lower_hex decodes
    is_hex_digit sha256_hex encode_to_string hex_char check_blocked check_excluded add64
    validate_quality_gates validate_case_set check_case check_policy check_documents
    check_dimensions has_duplicates string_dec
directory_accepted = refl

validate_dir_iff_example :
    ((validate_dir test_files test_lib required_keys
        (constant test_manifest)
        (constant test_gates)
        (constant test_cases)
        "v1"
        tt).0
      ≡ ok test_summary)
    ↔ IsAcceptedSuite test_files test_lib
        (constant test_manifest)
        (constant test_gates)
        (constant test_cases)
        "v1"
        tt
        test_summary
validate_dir_iff_example =
    validate_dir_iff test_files test_lib required_keys (constant test_manifest)
      (constant test_gates) (constant test_cases) required_order "v1" tt test_summary
