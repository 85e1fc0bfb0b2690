-- ===== src/GoldenSuite/Contract.antt =====
-- The JSON contracts of internal/goldensuite/contract.go and its constants and tables.
-- A `*string` or a `*bool` is an `Option`, a Go map an association list, and an `int` a ℤ.
use truthmetal.Base.{ℕ, ◌*◌, ◌^◌, String, Bool, not, ◌&&◌, Option, List, [], ◌∷◌, ltb}
use truthmetal.Base.Int.{ℤ}

abbrev pub manifest_schema_version : String
manifest_schema_version = "1.0"

abbrev pub contract_schema_version : String
contract_schema_version = "1.0"

abbrev pub expected_package_id : String
expected_package_id = "rbx-rag-public-assistant"

abbrev pub expected_authority : String
expected_authority = "truthmetal"

abbrev pub expected_executor : String
expected_executor = "verentir"

abbrev pub expected_mode : String
expected_mode = "shadow"

abbrev pub required_metrics : List (String × String)
required_metrics =
    ("overall_pass_rate", "gte")
    ∷ ("accuracy_average", "gte")
    ∷ ("scope_adherence_average", "gte")
    ∷ ("unsupported_claim_rate", "lte")
    ∷ ("financial_boundary_violation_rate", "lte")
    ∷ ("stale_or_unauthorized_evidence_rate", "lte")
    ∷ []

abbrev pub allowed_categories : List String
allowed_categories =
    "scope_refusal" ∷ "grounded_product_fact" ∷ "financial_boundary" ∷ "product_boundary"
    ∷ "unsupported_claim_refusal" ∷ "human_handoff" ∷ []

abbrev pub evidence_optional_categories : List String
evidence_optional_categories = "scope_refusal" ∷ "human_handoff" ∷ []

abbrev pub allowed_rubric_dimensions : List String
allowed_rubric_dimensions = "accuracy" ∷ "cta" ∷ "scope_adherence" ∷ "tone" ∷ []

-- A finite float64, which is all that JSON has: ± mantissa * 2 ^ up / 2 ^ down.
pub record Float64 : Type 0 where
  pub negative : Bool
  pub mantissa : ℕ
  pub up : ℕ
  pub down : ℕ

-- `x < 0`, which is false of a negative zero.
abbrev pub below_zero : Float64 → Bool
below_zero x = x.negative && ltb 0 x.mantissa

-- `x > 1`
abbrev pub above_one : Float64 → Bool
above_one x = not x.negative && ltb (2 ^ x.down) (x.mantissa * 2 ^ x.up)

pub record Source : Type 0 where
  pub repository : String
  pub commit_sha : String
  pub quality_gate_sha256 : String
  pub case_set_sha256 : String
  pub case_count : ℤ

pub record AcceptedArtifacts : Type 0 where
  pub quality_gate_file : String
  pub quality_gate_sha256 : String
  pub case_set_file : String
  pub case_set_sha256 : String
  pub case_count : ℤ

pub record ExcludedCase : Type 0 where
  pub id : String
  pub reason : String

pub record Manifest : Type 0 where
  pub schema_version : String
  pub suite_id : String
  pub package_id : String
  pub status : String
  pub authority : String
  pub intended_executor : String
  pub mode : String
  pub proposed_at : String
  pub canonical_ref : String
  pub source : Source
  pub accepted_artifacts : AcceptedArtifacts
  pub blocked_evidence_document_ids : List String
  pub excluded_cases : List ExcludedCase
  pub signing_trust_anchor_status : String
  pub rollout_authorized : Bool
  pub acceptance_effective_only_on_main : Bool

pub record MetricGate : Type 0 where
  pub key : String
  pub comparator : String
  pub threshold : Float64

pub record MetricMapping : Type 0 where
  pub source : String
  pub availability : String

pub record VerentirMapping : Type 0 where
  pub contract_version : String
  pub status : String
  pub result_signing_public_key : Option String
  pub metrics : List (String × MetricMapping)

pub record QualityGateContract : Type 0 where
  pub schema_version : String
  pub package_id : String
  pub status : String
  pub authority : String
  pub intended_executor : String
  pub execution_status : String
  pub mode : String
  pub blocks_public_rollout : Bool
  pub public_rollout_approval_required : Bool
  pub minimum_evaluated_cases : ℤ
  pub minimum_consecutive_passing_runs : ℤ
  pub metrics : List MetricGate
  pub verentir_mapping : VerentirMapping
  pub acceptance_requirements : List String

pub record CaseDefinition : Type 0 where
  pub id : String
  pub locale : String
  pub category : String
  pub input : String
  pub expected_behavior : String
  pub forbidden_behaviors : List String
  pub evidence_document_ids : List String
  pub evidence_required : Option Bool
  pub rubric_dimensions : List String
  pub status : String
  pub owner : String

pub record CaseSetContract : Type 0 where
  pub schema_version : String
  pub package_id : String
  pub status : String
  pub truth_owner : String
  pub intended_executor : String
  pub execution_status : String
  pub cases : List CaseDefinition

pub record Summary : Type 0 where
  pub suite_id : String
  pub package_id : String
  pub case_count : ℕ
  pub gate_status : String
  pub case_status : String
  pub signing_trust_anchor_status : String
  pub rollout_authorized : Bool
