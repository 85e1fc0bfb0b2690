-- ===== src/GoldenSuite/Cases/Laws.antt =====
-- `validateCaseSet` accepts exactly the case sets that satisfy `IsValidCaseSet`.
use truthmetal.Base.{
  String, Bool, ◌≡◌, refl, ◌≢◌, ◌↔◌, inl, inr, true, false, Option, none, some, List, [], ◌∷◌, ok,
  arith, >>_iff, All, member, NotMember, Bool-cases,
}
use truthmetal.Base.Pigeonhole.{Member}
use truthmetal.GoldenSuite.Contract.{
  Manifest, QualityGateContract, CaseDefinition, CaseSetContract, allowed_rubric_dimensions,
  allowed_categories,
}
use truthmetal.GoldenSuite.Libs.{Libs}
use truthmetal.GoldenSuite.Sets.{has_duplicates}
use truthmetal.GoldenSuite.Sets.Laws.{Fresh, Fresh-empty, Fresh-cons, Fresh-nil, has_duplicates_iff}
use truthmetal.GoldenSuite.Cases.{
  check_policy, check_documents, check_dimensions, check_case, check_cases, check_case_set_identity,
  validate_case_set, normalized_input, excluded_ids,
}
use truthmetal.GoldenSuite.Cases.Spec.{
  IsPolicy, IsValidCase, case_ids, case_inputs, IsCaseSetOf, IsValidCaseSet,
}

module _ (item : CaseDefinition) where
  check_policy_iff :
      (policy : Option Bool) → (check_policy item policy ≡ ok tt) ↔ IsPolicy item policy
  unfolding check_policy
  check_policy_iff none = (λ h. cc, λ h. absurd h)
  check_policy_iff (some true) = (λ h. ground arith, λ h. ground arith)
  check_policy_iff (some false) = (λ h. ground arith, λ h. ground arith)

  check_documents_iff :
      (blocked ids : List String)
      → (check_documents blocked item ids ≡ ok tt)
        ↔ (All (λ id. id ≢ "") ids × All (NotMember blocked) ids)
  unfolding check_documents
  check_documents_iff blocked [] = (λ _. (tt, tt), λ _. refl)
  check_documents_iff blocked (id ∷ ids) =
      let (sound, complete) = check_documents_iff blocked ids in
      (λ h. ground (arith, sound), λ h. ground (arith, h, complete (h.0.1, h.1.1)))

  check_dimensions_iff :
      (dimensions : List String)
      → (check_dimensions item dimensions ≡ ok tt)
        ↔ All (Member allowed_rubric_dimensions) dimensions
  unfolding check_dimensions
  check_dimensions_iff [] = (λ _. tt, λ _. refl)
  check_dimensions_iff (x ∷ xs) =
      let (sound, complete) = check_dimensions_iff xs in
      (
        λ h. elim (Bool-cases (member x allowed_rubric_dimensions)) [
          | inl e ↦ (e, sound (rw e at h))
          | inr e ↦ cc (rw e at h)
        ],
        λ (m, ms). rw m (complete ms),
      )

check_case_set_identity_iff :
    (m : Manifest) (gates : QualityGateContract) (cases : CaseSetContract)
    → (check_case_set_identity m gates cases ≡ ok tt) ↔ IsCaseSetOf m gates cases
unfolding check_case_set_identity
check_case_set_identity_iff m gates cases = (λ h. ground arith, λ h. ground arith)

module _ (blocked : List String) (item : CaseDefinition) where
  -- The tests of a round, one by one.
  record Passed : Type 0 where
    locale : item.locale ≢ ""
    expected : item.expected_behavior ≢ ""
    some_forbidden : item.forbidden_behaviors ≢ []
    forbidden : has_duplicates item.forbidden_behaviors ≡ false
    category : Member allowed_categories item.category
    accepted : item.status ≡ "accepted"
    owner : item.owner ≡ "truthmetal"
    policy : check_policy item item.evidence_required ≡ ok tt
    permitted : check_documents blocked item item.evidence_document_ids ≡ ok tt
    documents : has_duplicates item.evidence_document_ids ≡ false
    some_rubric : item.rubric_dimensions ≢ []
    rubric : has_duplicates item.rubric_dimensions ≡ false
    known_rubric : check_dimensions item item.rubric_dimensions ≡ ok tt

  check_case_passed : check_case blocked item ≡ ok tt → Passed
  unfolding check_case
  check_case_passed h = ground arith

  check_case_sound : check_case blocked item ≡ ok tt → IsValidCase blocked item
  check_case_sound h =
      let p = check_case_passed h in
      record {
        locale = p.locale;
        expected = p.expected;
        some_forbidden = p.some_forbidden;
        forbidden = (has_duplicates_iff _).0 p.forbidden;
        category = p.category;
        accepted = p.accepted;
        owner = p.owner;
        policy = (check_policy_iff item item.evidence_required).0 p.policy;
        permitted = ((check_documents_iff item blocked _).0 p.permitted).1;
        documents = (has_duplicates_iff _).0 p.documents;
        some_rubric = p.some_rubric;
        rubric = (has_duplicates_iff _).0 p.rubric;
        known_rubric = (check_dimensions_iff item _).0 p.known_rubric;
      }

  check_case_complete : IsValidCase blocked item → check_case blocked item ≡ ok tt
  unfolding check_case
  check_case_complete v =
      let documents = item.evidence_document_ids in
      ground (
        arith,
        v.locale,
        v.expected,
        v.some_forbidden,
        v.category,
        v.accepted,
        v.owner,
        v.some_rubric,
        (check_policy_iff item item.evidence_required).1 v.policy,
        (check_documents_iff item blocked documents).1 (v.documents.nonempty, v.permitted),
        (check_dimensions_iff item item.rubric_dimensions).1 v.known_rubric,
        (has_duplicates_iff item.forbidden_behaviors).1 v.forbidden,
        (has_duplicates_iff documents).1 v.documents,
        (has_duplicates_iff item.rubric_dimensions).1 v.rubric,
      )

-- The loop over the cases, from the sets `ids` and `inputs` on.
record Rest (lib : Libs) (blocked excluded ids inputs : List String) (items : List CaseDefinition)
    : Type 0 where
  fresh_ids : Fresh ids (case_ids items)
  not_excluded : All (NotMember excluded) (case_ids items)
  fresh_inputs : Fresh inputs (case_inputs lib items)
  each : All (IsValidCase blocked) items

module _ (lib : Libs) (blocked excluded : List String) where
  -- A round of the loop.
  record Round (ids inputs : List String) (item : CaseDefinition) : Type 0 where
    named : item.id ≢ ""
    new_id : NotMember ids item.id
    included : NotMember excluded item.id
    asked : normalized_input lib item ≢ ""
    new_input : NotMember inputs (normalized_input lib item)
    valid : check_case blocked item ≡ ok tt

  check_cases_cons :
      (ids inputs : List String) (item : CaseDefinition) (items : List CaseDefinition)
      → (check_cases lib blocked excluded ids inputs (item ∷ items) ≡ ok tt) ↔ (
          Round ids inputs item
          × (check_cases lib blocked excluded
                (item.id ∷ ids)
                (normalized_input lib item ∷ inputs)
                items
              ≡ ok tt))
  unfolding check_cases
  check_cases_cons ids inputs item items = (λ h. ground arith, λ h. ground arith)

  check_cases_iff :
      (ids inputs : List String) (items : List CaseDefinition)
      → (check_cases lib blocked excluded ids inputs items ≡ ok tt)
        ↔ Rest lib blocked excluded ids inputs items
  check_cases_iff ids inputs [] = (
    λ _. record {
      fresh_ids = Fresh-empty ids;
      not_excluded = tt;
      fresh_inputs = Fresh-empty inputs;
      each = tt;
    },
    λ _. unfold check_cases in refl,
  )
  check_cases_iff ids inputs (item ∷ items) =
      let input = normalized_input lib item in
      let (sound, complete) = check_cases_iff (item.id ∷ ids) (input ∷ inputs) items in
      let (enter, leave) = check_cases_cons ids inputs item items in
      let (id_out, id_in) = Fresh-cons ids item.id (case_ids items) in
      let (in_out, in_in) = Fresh-cons inputs input (case_inputs lib items) in
      (
        λ h.
            let (r, rest) = enter h in
            let s = sound rest in
            record {
              fresh_ids = id_in (r.named, r.new_id, s.fresh_ids);
              not_excluded = (r.included, s.not_excluded);
              fresh_inputs = in_in (r.asked, r.new_input, s.fresh_inputs);
              each = (check_case_sound blocked item r.valid, s.each);
            },
        λ s.
            let (named, new_id, ids_rest) = id_out s.fresh_ids in
            let (asked, new_input, inputs_rest) = in_out s.fresh_inputs in
            leave (
              record {
                named = named;
                new_id = new_id;
                included = s.not_excluded.0;
                asked = asked;
                new_input = new_input;
                valid = check_case_complete blocked item s.each.0;
              },
              complete (record {
                fresh_ids = ids_rest;
                not_excluded = s.not_excluded.1;
                fresh_inputs = inputs_rest;
                each = s.each.1;
              }),
            ),
      )

module _ (lib : Libs) where
  -- `validateCaseSet` accepts exactly the case sets that satisfy `IsValidCaseSet`: they are of
  -- TruthMetal and of the manifest, have its count and enough cases for the gate, their ids are
  -- non-empty, distinct and not excluded, their normalized inputs non-empty and distinct, and
  -- each case is valid, with no blocked evidence.
  pub validate_case_set_iff :
      (m : Manifest) (gates : QualityGateContract) (cases : CaseSetContract)
      → (validate_case_set lib m gates cases ≡ ok tt) ↔ IsValidCaseSet lib m gates cases
  unfolding validate_case_set
  validate_case_set_iff m gates cases =
      let blocked = m.blocked_evidence_document_ids in
      let excluded = excluded_ids m.excluded_cases in
      let items = cases.cases in
      let (is, si) = check_case_set_identity_iff m gates cases in
      let (cs, sc) = check_cases_iff lib blocked excluded [] [] items in
      (
        λ h.
            let (i, rest) = (>>_iff (check_case_set_identity m gates cases) _).0 h in
            let r = cs rest in
            record {
              identity = is i;
              items = record {
                ids = (Fresh-nil (case_ids items)).0 r.fresh_ids;
                not_excluded = r.not_excluded;
                inputs = (Fresh-nil (case_inputs lib items)).0 r.fresh_inputs;
                each = r.each;
              };
            },
        λ v. (>>_iff (check_case_set_identity m gates cases) _).1 (
          si v.identity,
          sc (record {
            fresh_ids = (Fresh-nil (case_ids items)).1 v.items.ids;
            not_excluded = v.items.not_excluded;
            fresh_inputs = (Fresh-nil (case_inputs lib items)).1 v.items.inputs;
            each = v.items.each;
          }),
        ),
      )
