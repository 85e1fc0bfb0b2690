-- ===== src/GoldenSuite/Errors.antt =====
-- The errors of internal/goldensuite/contract.go: a constructor for each message.
use truthmetal.Base.{String}

pub data SuiteError : Type 0 where
  -- ValidateDir
  filenames_not_pinned : SuiteError
  -- decodeFile
  inspect_failed not_regular open_failed inspect_opened_failed : String → SuiteError
  changed_during_validation read_failed decode_failed trailing_json : String → SuiteError
  -- validateManifest
  manifest_schema_version_wrong suite_id_missing package_id_wrong : SuiteError
  manifest_not_accepted manifest_target_wrong : SuiteError
  acceptance_not_on_main rollout_must_not_be_authorized proposed_at_not_date : SuiteError
  canonical_ref_wrong gate_hash_mismatch case_hash_mismatch : SuiteError
  case_count_not_positive no_blocked_evidence source_count_mismatch : SuiteError
  blocked_ids_not_unique excluded_cases_invalid trust_anchor_status_wrong : SuiteError
  -- validateSource
  repository_not_github repository_wrong_package commit_sha_wrong : SuiteError
  source_hashes_wrong source_case_count_not_positive : SuiteError
  -- validateQualityGates
  gate_identity_mismatch gate_not_accepted gate_target_wrong gate_not_shadow_only : SuiteError
  minimum_cases_do_not_fit minimum_runs_not_positive no_acceptance_requirements : SuiteError
  metrics_not_required_set : SuiteError
  metric_invalid : String → SuiteError
  metrics_missing mapping_version_wrong mapping_incomplete : SuiteError
  mapping_invalid : String → SuiteError
  pending_anchor_has_key accepted_anchor_lacks_key key_not_ed25519 : SuiteError
  -- validateCaseSet
  case_set_identity_mismatch case_set_not_accepted case_set_target_wrong : SuiteError
  case_set_count_wrong case_ids_not_unique case_inputs_not_unique : SuiteError
  oracle_content_missing forbidden_behaviors_not_unique unknown_category : String → SuiteError
  case_not_accepted evidence_policy_missing evidence_may_not_be_omitted : String → SuiteError
  evidence_missing evidence_must_be_empty : String → SuiteError
  evidence_blocked : String → String → SuiteError
  evidence_not_unique rubric_not_unique unknown_rubric_dimension : String → SuiteError
