-- ===== src/GoldenSuite/Manifest/Laws.antt =====
-- `validateManifest` accepts exactly the manifests that satisfy `IsValidManifest`.
use truthmetal.Base.{
  ℕ, String, ◌≡◌, refl, ◌≢◌, ◌↔◌, inl, inr, List, [], ◌∷◌, ok, arith, >>_iff, All, UniqueNonempty,
  Option-cases,
}
use truthmetal.GoldenSuite.Contract.{Source, ExcludedCase, Manifest}
use truthmetal.GoldenSuite.Libs.{Libs}
use truthmetal.GoldenSuite.Sets.Laws.{Fresh, Fresh-cons, Fresh-nil}
use truthmetal.GoldenSuite.Cases.{excluded_ids}
use truthmetal.GoldenSuite.Manifest.{
  check_blocked, check_excluded, validate_source, check_identity, check_artifacts,
  validate_manifest,
}
use truthmetal.GoldenSuite.Manifest.Spec.{
  IsValidSource, AreExclusions, IsIdentified, PinsArtifacts, IsValidManifest,
}

check_blocked_iff : (seen xs : List String) → (check_blocked seen xs ≡ ok tt) ↔ Fresh seen xs
unfolding check_blocked
check_blocked_iff seen [] = (λ _. record { nonempty = tt; unseen = tt; distinct = tt }, λ _. refl)
check_blocked_iff seen (x ∷ xs) = (
  λ h. (Fresh-cons seen x xs).1 (ground (arith, (check_blocked_iff (x ∷ seen) xs).0)),
  λ h.
      let p = (Fresh-cons seen x xs).0 h in
      ground (arith, p.0, p.1, (check_blocked_iff (x ∷ seen) xs).1 p.2),
)

check_excluded_iff :
    (seen : List String) (items : List ExcludedCase)
    → (check_excluded seen items ≡ ok tt)
      ↔ (Fresh seen (excluded_ids items) × All (λ (item : ExcludedCase). item.reason ≢ "") items)
unfolding check_excluded
check_excluded_iff seen [] =
    (λ _. (record { nonempty = tt; unseen = tt; distinct = tt }, tt), λ _. refl)
check_excluded_iff seen (x ∷ xs) =
    let (sound, complete) = check_excluded_iff (x.id ∷ seen) xs in
    let (out, into) = Fresh-cons seen x.id (excluded_ids xs) in
    (
      λ h. (into (ground (arith, sound)), ground (arith, sound)),
      λ (h, r). let p = out h in ground (arith, p.0, p.1, r.0, complete (p.2, r.1)),
    )

pub AreExclusions-iff :
    (items : List ExcludedCase) → (check_excluded [] items ≡ ok tt) ↔ AreExclusions items
AreExclusions-iff items = (
  λ h.
      let (f, r) = (check_excluded_iff [] items).0 h in
      record { ids = (Fresh-nil _).0 f; reasons = r },
  λ h. (check_excluded_iff [] items).1 ((Fresh-nil _).1 h.ids, h.reasons),
)

pub blocked_iff : (ids : List String) → (check_blocked [] ids ≡ ok tt) ↔ UniqueNonempty ids
blocked_iff ids = (
  λ h. (Fresh-nil ids).0 ((check_blocked_iff [] ids).0 h),
  λ h. (check_blocked_iff [] ids).1 ((Fresh-nil ids).1 h),
)

module _ (lib : Libs) where
  validate_source_sound : (s : Source) → validate_source lib s ≡ ok tt → IsValidSource lib s
  unfolding validate_source
  validate_source_sound s h = elim (Option-cases (lib.url_parse s.repository)) [
    | inl e ↦ cc (h, e)
    | inr (u, e) ↦ record {
      url = u;
      parses = e;
      is_package = ground arith;
      commit = ground arith;
      gate_hash = ground arith;
      case_hash = ground arith;
      count = ground arith;
    }
  ]

  validate_source_complete : (s : Source) → IsValidSource lib s → validate_source lib s ≡ ok tt
  unfolding validate_source
  validate_source_complete s v = ground (arith, v.parses, v.is_package)

  pub validate_source_iff : (s : Source) → (validate_source lib s ≡ ok tt) ↔ IsValidSource lib s
  validate_source_iff s = (validate_source_sound s, validate_source_complete s)

  check_identity_iff : (m : Manifest) → (check_identity lib m ≡ ok tt) ↔ IsIdentified lib m
  unfolding check_identity
  check_identity_iff m = (λ h. ground arith, λ h. ground arith)

  module _ (m : Manifest) (gate_bytes case_bytes : List ℕ) where
    check_artifacts_sound :
        check_artifacts lib m gate_bytes case_bytes ≡ ok tt
        → PinsArtifacts lib m gate_bytes case_bytes
    unfolding check_artifacts
    check_artifacts_sound h = ground (
      arith,
      (blocked_iff m.blocked_evidence_document_ids).0,
      (AreExclusions-iff m.excluded_cases).0,
    )

    check_artifacts_complete :
        PinsArtifacts lib m gate_bytes case_bytes
        → check_artifacts lib m gate_bytes case_bytes ≡ ok tt
    unfolding check_artifacts
    check_artifacts_complete p = ground (
      arith,
      (blocked_iff m.blocked_evidence_document_ids).1 p.blocked,
      (AreExclusions-iff m.excluded_cases).1 p.excluded,
    )

    -- `validateManifest` accepts a manifest for two artifacts exactly if its identity, its source
    -- and what it pins of the artifacts are valid.
    pub validate_manifest_iff :
        (validate_manifest lib m gate_bytes case_bytes ≡ ok tt)
        ↔ IsValidManifest lib m gate_bytes case_bytes
    unfolding validate_manifest
    validate_manifest_iff = (
      λ h.
          let (i, rest) = (>>_iff (check_identity lib m) _).0 h in
          let (s, a) = (>>_iff (validate_source lib m.source) _).0 rest in
          record {
            identity = (check_identity_iff m).0 i;
            source = validate_source_sound m.source s;
            pins = check_artifacts_sound a;
          },
      λ v. (>>_iff (check_identity lib m) _).1 (
        (check_identity_iff m).1 v.identity,
        (>>_iff (validate_source lib m.source) _).1
            (validate_source_complete m.source v.source, check_artifacts_complete v.pins),
      ),
    )
