-- ===== src/GoldenSuite/Manifest.antt =====
-- `validateManifest` and `validateSource`. `if test { return err }` is `reject_if test err`.
pub mod Spec
pub mod Laws
use truthmetal.Base.{
  ℕ, String, Bool, true, false, not, ◌&&◌, ◌||◌, Option, none, some, List, [], ◌∷◌, Result, ok, err,
  ◌>>=◌, ◌>>◌, reject_if, ◌==◌, ◌!=◌, length, is_empty, member, if◌then◌else◌,
}
use truthmetal.Base.Int.{ℤ, pos, leb_ℤ, eq_ℤ, add64}
use truthmetal.GoldenSuite.Contract.{
  Source, ExcludedCase, Manifest, manifest_schema_version, expected_package_id, expected_authority,
  expected_executor, expected_mode,
}
use truthmetal.GoldenSuite.Errors.{
  SuiteError, manifest_schema_version_wrong, suite_id_missing, package_id_wrong,
  manifest_not_accepted, manifest_target_wrong, acceptance_not_on_main,
  rollout_must_not_be_authorized, proposed_at_not_date, canonical_ref_wrong, gate_hash_mismatch,
  case_hash_mismatch, case_count_not_positive, no_blocked_evidence, source_count_mismatch,
  blocked_ids_not_unique, excluded_cases_invalid, trust_anchor_status_wrong, repository_not_github,
  repository_wrong_package, commit_sha_wrong, source_hashes_wrong, source_case_count_not_positive,
}
use truthmetal.GoldenSuite.Libs.{Libs, Url}
use truthmetal.GoldenSuite.Hex.{is_lower_hex, sha256_hex}

abbrev pub Check : Type 0
Check = Result SuiteError (Unit {0})

-- The loop over the blocked ids, from the keys of `blocked` on.
unfoldable pub check_blocked : List String → List String → Check
check_blocked blocked [] = ok tt
check_blocked blocked (id ∷ ids) =
    if id == "" || member id blocked
    then err blocked_ids_not_unique
    else check_blocked (id ∷ blocked) ids

-- The loop over the excluded cases, from the keys of `excluded` on.
unfoldable pub check_excluded : List String → List ExcludedCase → Check
check_excluded excluded [] = ok tt
check_excluded excluded (item ∷ items) =
    if item.id == "" || item.reason == "" || member item.id excluded
    then err excluded_cases_invalid
    else check_excluded (item.id ∷ excluded) items

-- The test on the parsed URL; an error of `url.Parse` is `none`.
unfoldable pub is_foreign_url : Option Url → Bool
is_foreign_url none = true
is_foreign_url (some parsed) =
    parsed.scheme != "https"
    || parsed.host != "github.com"
    || parsed.user
    || parsed.raw_query != ""
    || parsed.fragment != ""
    || parsed.force_query

abbrev parsed_path : Option Url → String
parsed_path none = ""
parsed_path (some parsed) = parsed.path

module _ (lib : Libs) where
  unfoldable pub validate_source : Source → Check
  unfolding is_foreign_url
  validate_source source = do
    let parsed = lib.url_parse source.repository
    reject_if (is_foreign_url parsed) repository_not_github
    reject_if (parsed_path parsed != "/rbxrobotica/rbx-rag-public-assistant")
        repository_wrong_package
    reject_if (not (is_lower_hex lib source.commit_sha 40)) commit_sha_wrong
    reject_if
        (not (is_lower_hex lib source.quality_gate_sha256 64)
          || not (is_lower_hex lib source.case_set_sha256 64))
        source_hashes_wrong
    reject_if (leb_ℤ source.case_count (pos 0)) source_case_count_not_positive

  -- The checks of the manifest above the call of `validateSource`.
  check_identity : Manifest → Check
  check_identity manifest = do
    reject_if (manifest.schema_version != manifest_schema_version) manifest_schema_version_wrong
    reject_if (manifest.suite_id == "") suite_id_missing
    reject_if (manifest.package_id != expected_package_id) package_id_wrong
    reject_if (manifest.status != "accepted" || manifest.authority != expected_authority)
        manifest_not_accepted
    reject_if (manifest.intended_executor != expected_executor || manifest.mode != expected_mode)
        manifest_target_wrong
    reject_if (not manifest.acceptance_effective_only_on_main) acceptance_not_on_main
    reject_if manifest.rollout_authorized rollout_must_not_be_authorized
    reject_if (not (lib.is_date_only manifest.proposed_at)) proposed_at_not_date
    reject_if (manifest.canonical_ref != "refs/heads/main") canonical_ref_wrong

  -- The checks below that call.
  check_artifacts : Manifest → List ℕ → List ℕ → Check
  check_artifacts manifest gate_bytes case_bytes = do
    let accepted = manifest.accepted_artifacts
    let source = manifest.source
    let blocked = manifest.blocked_evidence_document_ids
    reject_if (accepted.quality_gate_sha256 != sha256_hex lib gate_bytes) gate_hash_mismatch
    reject_if (accepted.case_set_sha256 != sha256_hex lib case_bytes) case_hash_mismatch
    reject_if (leb_ℤ accepted.case_count (pos 0)) case_count_not_positive
    reject_if (is_empty blocked) no_blocked_evidence
    reject_if
        (not (
          eq_ℤ source.case_count
            (add64 accepted.case_count (pos (length manifest.excluded_cases)))))
        source_count_mismatch
    check_blocked [] blocked
    check_excluded [] manifest.excluded_cases
    reject_if
        (manifest.signing_trust_anchor_status != "pending"
          && manifest.signing_trust_anchor_status != "accepted")
        trust_anchor_status_wrong

  unfoldable pub validate_manifest : Manifest → List ℕ → List ℕ → Check
  unfolding check_identity check_artifacts
  validate_manifest manifest gate_bytes case_bytes = do
    check_identity manifest
    validate_source manifest.source
    check_artifacts manifest gate_bytes case_bytes
