-- ===== src/GoldenSuite/Gates/Spec.antt =====
-- What a quality-gate contract that `validateQualityGates` accepts satisfies.
use mathlib.Core.List
use Prim.Native.String
use truthmetal.Base.{
  ℕ, ◌*◌, ◌^◌, ◌≤◌, String, ◌≡◌, ◌≢◌, ◌⊎◌, true, false, Option, none, some, List, [], length,
  lookup, All, Distinct,
}
use truthmetal.Base.Int.{◌≤ℤ◌}
use truthmetal.Base.Pigeonhole.{Member}
use truthmetal.GoldenSuite.Contract.{
  Float64, Manifest, MetricGate, MetricMapping, VerentirMapping, QualityGateContract,
  required_metrics,
}
use truthmetal.GoldenSuite.Libs.{Libs}
use truthmetal.GoldenSuite.Manifest.Spec.{IsPositive}

abbrev pub metric_keys : List MetricGate → List String
metric_keys = List.map (λ metric. metric.key)

abbrev pub required_keys : List String
required_keys = List.map (λ (key, _). key) required_metrics

-- 0 ≤ x ≤ 1
pub record InUnitInterval (x : Float64) : Type 0 where
  pub nonneg : (x.negative ≡ false) ⊎ (x.mantissa ≡ 0)
  pub at_most_one : (x.negative ≡ true) ⊎ (x.mantissa * 2 ^ x.up ≤ 2 ^ x.down)

-- The metric is a required one, compared as required to a threshold in the unit interval.
pub record IsMetric (metric : MetricGate) : Type 0 where
  pub comparator : lookup metric.key required_metrics ≡ some metric.comparator
  pub threshold : InUnitInterval metric.threshold

-- Each required metric is gated exactly once, and no other is.
pub record GatesRequired (metrics : List MetricGate) : Type 0 where
  pub each : All IsMetric metrics
  pub once : Distinct (metric_keys metrics)
  pub covers : All (Member (metric_keys metrics)) required_keys

abbrev pub IsMapped : List (String × MetricMapping) → String → Type 0
IsMapped mappings key =
    (mapping : MetricMapping) × (lookup key mappings ≡ some mapping)
    × (mapping.availability ≡ "available")
    × (mapping.source ≡ String.◌++◌ "rag_quality_report.metrics." key)

pub record IsValidMapping (mapping : VerentirMapping) : Type 0 where
  pub version : mapping.contract_version ≡ "1"
  pub available : mapping.status ≡ "available"
  pub size : length mapping.metrics ≡ length required_metrics
  pub maps : All (IsMapped mapping.metrics) required_keys

-- No key is published while the trust anchor is pending, and else one of 32 bytes.
abbrev pub IsSigningKey : Libs → String → Option String → Type 0
IsSigningKey lib status none = status ≡ "pending"
IsSigningKey lib status (some key) =
    (status ≢ "pending")
    × ((decoded : List ℕ) × (lib.base64_decode key ≡ some decoded) × (length decoded ≡ 32))

pub record IsShadowGate (m : Manifest) (gates : QualityGateContract) : Type 0 where
  pub schema : gates.schema_version ≡ "1.0"
  pub package_id : gates.package_id ≡ m.package_id
  pub accepted : gates.status ≡ "accepted"
  pub authority : gates.authority ≡ "truthmetal"
  pub executor : gates.intended_executor ≡ "verentir"
  pub execution : gates.execution_status ≡ "adapter-available"
  pub shadow : gates.mode ≡ "shadow"
  pub blocks : gates.blocks_public_rollout ≡ true
  pub approval : gates.public_rollout_approval_required ≡ true
  pub some_cases : IsPositive gates.minimum_evaluated_cases
  pub fits : gates.minimum_evaluated_cases ≤ℤ m.accepted_artifacts.case_count
  pub some_runs : IsPositive gates.minimum_consecutive_passing_runs
  pub requirements : gates.acceptance_requirements ≢ []

pub record IsValidGates (lib : Libs) (m : Manifest) (gates : QualityGateContract) : Type 0 where
  pub shadow : IsShadowGate m gates
  pub metrics : GatesRequired gates.metrics
  pub mapping : IsValidMapping gates.verentir_mapping
  pub signing :
      IsSigningKey lib m.signing_trust_anchor_status
        gates.verentir_mapping.result_signing_public_key

-- A loop over the keys of `requiredMetrics`: it reaches each of them, and nothing else.
pub record IsKeyOrder (key_order : List String) : Type 0 where
  pub only : All (Member required_keys) key_order
  pub every : All (Member key_order) required_keys
