-- ===== src/GoldenSuite/Cases.antt =====
-- `validateCaseSet`.
pub mod Spec
pub mod Laws
use mathlib.Core.List
use truthmetal.Base.{
  String, Bool, true, false, not, ◌&&◌, ◌||◌, Option, none, some, List, [], ◌∷◌, ok, err, ◌>>=◌,
  ◌>>◌, reject_if, ◌==◌, ◌!=◌, length, is_empty, member, if◌then◌else◌,
}
use truthmetal.Base.Int.{pos, ltb_ℤ, eq_ℤ}
use truthmetal.GoldenSuite.Contract.{
  Manifest, ExcludedCase, QualityGateContract, CaseDefinition, CaseSetContract,
  contract_schema_version, expected_authority, expected_executor, allowed_categories,
  evidence_optional_categories, allowed_rubric_dimensions,
}
use truthmetal.GoldenSuite.Errors.{
  case_set_identity_mismatch, case_set_not_accepted, case_set_target_wrong, case_set_count_wrong,
  case_ids_not_unique, case_inputs_not_unique, oracle_content_missing,
  forbidden_behaviors_not_unique, unknown_category, case_not_accepted, evidence_policy_missing,
  evidence_may_not_be_omitted, evidence_missing, evidence_must_be_empty, evidence_blocked,
  evidence_not_unique, rubric_not_unique, unknown_rubric_dimension,
}
use truthmetal.GoldenSuite.Libs.{Libs}
use truthmetal.GoldenSuite.Sets.{has_duplicates}
use truthmetal.GoldenSuite.Manifest.{Check}

-- The three tests on `EvidenceRequired`; a nil pointer is rejected before it is read.
unfoldable pub check_policy : CaseDefinition → Option Bool → Check
check_policy item none = err (evidence_policy_missing item.id)
check_policy item (some required) = do
  reject_if (not required && not (member item.category evidence_optional_categories))
      (evidence_may_not_be_omitted item.id)
  reject_if (required && is_empty item.evidence_document_ids) (evidence_missing item.id)
  reject_if (not required && not (is_empty item.evidence_document_ids))
      (evidence_must_be_empty item.id)

unfoldable pub check_documents : List String → CaseDefinition → List String → Check
check_documents blocked item [] = ok tt
check_documents blocked item (id ∷ ids) =
    if id == "" || member id blocked
    then err (evidence_blocked item.id id)
    else check_documents blocked item ids

unfoldable pub check_dimensions : CaseDefinition → List String → Check
check_dimensions item [] = ok tt
check_dimensions item (dimension ∷ dimensions) =
    if not (member dimension allowed_rubric_dimensions)
    then err (unknown_rubric_dimension item.id)
    else check_dimensions item dimensions

-- A round of the loop behind its tests on ids and inputs.
unfoldable pub check_case : List String → CaseDefinition → Check
check_case blocked item = do
  reject_if (item.locale == "" || item.expected_behavior == "" || is_empty item.forbidden_behaviors)
      (oracle_content_missing item.id)
  reject_if (has_duplicates item.forbidden_behaviors) (forbidden_behaviors_not_unique item.id)
  reject_if (not (member item.category allowed_categories)) (unknown_category item.id)
  reject_if (item.status != "accepted" || item.owner != expected_authority)
      (case_not_accepted item.id)
  check_policy item item.evidence_required
  check_documents blocked item item.evidence_document_ids
  reject_if (has_duplicates item.evidence_document_ids) (evidence_not_unique item.id)
  reject_if (is_empty item.rubric_dimensions || has_duplicates item.rubric_dimensions)
      (rubric_not_unique item.id)
  check_dimensions item item.rubric_dimensions

-- The keys of the map `excluded`.
abbrev pub excluded_ids : List ExcludedCase → List String
excluded_ids = List.map (λ item. item.id)

-- The checks above the loop.
check_case_set_identity : Manifest → QualityGateContract → CaseSetContract → Check
check_case_set_identity manifest gates cases = do
  reject_if
      (cases.schema_version != contract_schema_version || cases.package_id != manifest.package_id)
      case_set_identity_mismatch
  reject_if (cases.status != "accepted" || cases.truth_owner != expected_authority)
      case_set_not_accepted
  reject_if
      (cases.intended_executor != expected_executor
        || cases.execution_status != "adapter-available")
      case_set_target_wrong
  reject_if
      (not (eq_ℤ (pos (length cases.cases)) manifest.accepted_artifacts.case_count)
        || ltb_ℤ (pos (length cases.cases)) gates.minimum_evaluated_cases)
      case_set_count_wrong

module _ (lib : Libs) where
  abbrev pub normalized_input : CaseDefinition → String
  normalized_input item = lib.to_lower (lib.trim_space item.input)

  -- The loop, from the keys of `ids` and `inputs` on.
  unfoldable pub check_cases :
      List String → List String → List String → List String → List CaseDefinition → Check
  check_cases blocked excluded ids inputs [] = ok tt
  check_cases blocked excluded ids inputs (item ∷ items) = do
    reject_if (item.id == "" || member item.id ids || member item.id excluded) case_ids_not_unique
    let normalized = normalized_input item
    reject_if (normalized == "" || member normalized inputs) case_inputs_not_unique
    check_case blocked item
    check_cases blocked excluded (item.id ∷ ids) (normalized ∷ inputs) items

  unfoldable pub validate_case_set : Manifest → QualityGateContract → CaseSetContract → Check
  unfolding check_case_set_identity check_cases
  validate_case_set manifest gates cases = do
    check_case_set_identity manifest gates cases
    check_cases manifest.blocked_evidence_document_ids (excluded_ids manifest.excluded_cases) [] []
        cases.cases
