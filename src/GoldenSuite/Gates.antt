-- ===== src/GoldenSuite/Gates.antt =====
-- `validateQualityGates`. Go ranges over `requiredMetrics` in an order of its own choice: that
-- order is the parameter `key_order`, the keys in the order of the loop.
pub mod Spec
pub mod Laws
use Prim.Native.String
use truthmetal.Base.{
  ℕ, String, Bool, true, false, not, ◌||◌, Option, none, some, List, [], ◌∷◌, ok, err, ◌>>=◌, ◌>>◌,
  reject_if, ◌==◌, ◌!=◌, length, is_empty, lookup, member, nat_eq, if◌then◌else◌,
}
use truthmetal.Base.Int.{pos, leb_ℤ, ltb_ℤ}
use truthmetal.GoldenSuite.Contract.{
  Manifest, MetricGate, MetricMapping, VerentirMapping, QualityGateContract, required_metrics,
  contract_schema_version, expected_authority, expected_executor, expected_mode, below_zero,
  above_one,
}
use truthmetal.GoldenSuite.Errors.{
  gate_identity_mismatch, gate_not_accepted, gate_target_wrong, gate_not_shadow_only,
  minimum_cases_do_not_fit, minimum_runs_not_positive, no_acceptance_requirements,
  metrics_not_required_set, metric_invalid, metrics_missing, mapping_version_wrong,
  mapping_incomplete, mapping_invalid, pending_anchor_has_key, accepted_anchor_lacks_key,
  key_not_ed25519,
}
use truthmetal.GoldenSuite.Libs.{Libs}
use truthmetal.GoldenSuite.Manifest.{Check}

-- One round of the loop over the metrics, from `requiredMetrics[metric.Key]` on.
unfoldable pub check_metric : Option String → List String → MetricGate → Check
check_metric none seen metric = err metrics_not_required_set
check_metric (some comparator) seen metric =
    if member metric.key seen
    then err metrics_not_required_set
    else reject_if
        (metric.comparator != comparator
          || below_zero metric.threshold
          || above_one metric.threshold)
        (metric_invalid metric.key)

-- The loop, from the keys of `seen` on, and the count of `seen` behind it.
unfoldable pub check_metrics : List String → List MetricGate → Check
unfolding check_metric
check_metrics seen [] =
    reject_if (not (nat_eq (length seen) (length required_metrics))) metrics_missing
check_metrics seen (metric ∷ metrics) = do
  check_metric (lookup metric.key required_metrics) seen metric
  check_metrics (metric.key ∷ seen) metrics

-- The test on the mapping of one key.
unfoldable pub is_bad_mapping : String → Option MetricMapping → Bool
is_bad_mapping key none = true
is_bad_mapping key (some mapping) =
    mapping.availability != "available"
    || mapping.source != String.◌++◌ "rag_quality_report.metrics." key

unfoldable pub check_mappings : List (String × MetricMapping) → List String → Check
unfolding is_bad_mapping
check_mappings mappings [] = ok tt
check_mappings mappings (key ∷ keys) =
    if is_bad_mapping key (lookup key mappings)
    then err (mapping_invalid key)
    else check_mappings mappings keys

-- The checks above the loops.
check_gate_identity : Manifest → QualityGateContract → Check
check_gate_identity manifest gates = do
  reject_if
      (gates.schema_version != contract_schema_version || gates.package_id != manifest.package_id)
      gate_identity_mismatch
  reject_if (gates.status != "accepted" || gates.authority != expected_authority) gate_not_accepted
  reject_if
      (gates.intended_executor != expected_executor
        || gates.execution_status != "adapter-available")
      gate_target_wrong
  reject_if
      (gates.mode != expected_mode
        || not gates.blocks_public_rollout
        || not gates.public_rollout_approval_required)
      gate_not_shadow_only
  reject_if
      (leb_ℤ gates.minimum_evaluated_cases (pos 0)
        || ltb_ℤ manifest.accepted_artifacts.case_count gates.minimum_evaluated_cases)
      minimum_cases_do_not_fit
  reject_if (leb_ℤ gates.minimum_consecutive_passing_runs (pos 0)) minimum_runs_not_positive
  reject_if (is_empty gates.acceptance_requirements) no_acceptance_requirements

-- The checks of the mapping.
check_verentir_mapping : List String → VerentirMapping → Check
unfolding check_mappings
check_verentir_mapping key_order mapping = do
  reject_if (mapping.contract_version != "1" || mapping.status != "available") mapping_version_wrong
  reject_if (not (nat_eq (length mapping.metrics) (length required_metrics))) mapping_incomplete
  check_mappings mapping.metrics key_order

-- `err != nil || len(decoded) != 32`
is_bad_key : Option (List ℕ) → Bool
is_bad_key none = true
is_bad_key (some decoded) = not (nat_eq (length decoded) 32)

module _ (lib : Libs) where
  unfoldable pub check_signing_key : String → Option String → Check
  unfolding is_bad_key
  check_signing_key status none =
      if status == "pending" then ok tt else err accepted_anchor_lacks_key
  check_signing_key status (some key) =
      if status == "pending"
      then err pending_anchor_has_key
      else reject_if (is_bad_key (lib.base64_decode key)) key_not_ed25519

  unfoldable pub validate_quality_gates : List String → Manifest → QualityGateContract → Check
  unfolding check_gate_identity check_metrics check_verentir_mapping check_signing_key
  validate_quality_gates key_order manifest gates = do
    check_gate_identity manifest gates
    check_metrics [] gates.metrics
    check_verentir_mapping key_order gates.verentir_mapping
    check_signing_key manifest.signing_trust_anchor_status
        gates.verentir_mapping.result_signing_public_key
