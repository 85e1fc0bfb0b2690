-- ===== src/GoldenSuite/Cases/Spec.antt =====
-- What a case set that `validateCaseSet` accepts satisfies.
use mathlib.Core.List
use truthmetal.Base.{
  String, Bool, ◌≡◌, ◌≢◌, true, false, Option, none, some, List, [], length, All, NotMember,
  UniqueNonempty,
}
use truthmetal.Base.Int.{pos, ◌≤ℤ◌}
use truthmetal.Base.Pigeonhole.{Member}
use truthmetal.GoldenSuite.Contract.{
  Manifest, QualityGateContract, CaseDefinition, CaseSetContract, allowed_categories,
  evidence_optional_categories, allowed_rubric_dimensions,
}
use truthmetal.GoldenSuite.Libs.{Libs}
use truthmetal.GoldenSuite.Cases.{excluded_ids, normalized_input}

-- The evidence policy is declared; evidence that is required is there, and evidence that is not
-- is absent, in a category that may do without.
abbrev pub IsPolicy : CaseDefinition → Option Bool → Type 0
IsPolicy item none = ⊥
IsPolicy item (some true) = item.evidence_document_ids ≢ []
IsPolicy item (some false) =
    Member evidence_optional_categories item.category × (item.evidence_document_ids ≡ [])

pub record IsValidCase (blocked : List String) (item : CaseDefinition) : Type 0 where
  pub locale : item.locale ≢ ""
  pub expected : item.expected_behavior ≢ ""
  pub some_forbidden : item.forbidden_behaviors ≢ []
  pub forbidden : UniqueNonempty item.forbidden_behaviors
  pub category : Member allowed_categories item.category
  pub accepted : item.status ≡ "accepted"
  pub owner : item.owner ≡ "truthmetal"
  pub policy : IsPolicy item item.evidence_required
  pub permitted : All (NotMember blocked) item.evidence_document_ids
  pub documents : UniqueNonempty item.evidence_document_ids
  pub some_rubric : item.rubric_dimensions ≢ []
  pub rubric : UniqueNonempty item.rubric_dimensions
  pub known_rubric : All (Member allowed_rubric_dimensions) item.rubric_dimensions

abbrev pub case_ids : List CaseDefinition → List String
case_ids = List.map (λ item. item.id)

abbrev pub case_inputs : Libs → List CaseDefinition → List String
case_inputs lib = List.map (normalized_input lib)

pub record IsCaseSetOf (m : Manifest) (gates : QualityGateContract) (cases : CaseSetContract)
    : Type 0 where
  pub schema : cases.schema_version ≡ "1.0"
  pub package_id : cases.package_id ≡ m.package_id
  pub accepted : cases.status ≡ "accepted"
  pub owner : cases.truth_owner ≡ "truthmetal"
  pub executor : cases.intended_executor ≡ "verentir"
  pub execution : cases.execution_status ≡ "adapter-available"
  pub count : pos (length cases.cases) ≡ m.accepted_artifacts.case_count
  pub enough : gates.minimum_evaluated_cases ≤ℤ pos (length cases.cases)

pub record AreValidCases (lib : Libs) (blocked excluded : List String) (items : List CaseDefinition)
    : Type 0 where
  pub ids : UniqueNonempty (case_ids items)
  pub not_excluded : All (NotMember excluded) (case_ids items)
  pub inputs : UniqueNonempty (case_inputs lib items)
  pub each : All (IsValidCase blocked) items

pub record IsValidCaseSet (lib : Libs) (m : Manifest) (gates : QualityGateContract)
    (cases : CaseSetContract) : Type 0 where
  pub identity : IsCaseSetOf m gates cases
  pub items :
      AreValidCases lib m.blocked_evidence_document_ids (excluded_ids m.excluded_cases) cases.cases
