-- ===== src/GoldenSuite/Manifest/Spec.antt =====
-- What a manifest that `validateManifest` accepts satisfies.
use truthmetal.Base.{
  ℕ, ◌<◌, ◌≡◌, ◌≢◌, ◌⊎◌, true, false, some, List, [], length, All, UniqueNonempty,
}
use truthmetal.Base.Int.{ℤ, pos, pos_part, add64}
use truthmetal.GoldenSuite.Contract.{Source, ExcludedCase, Manifest}
use truthmetal.GoldenSuite.Libs.{Libs, Url}
use truthmetal.GoldenSuite.Hex.{is_lower_hex, sha256_hex}
use truthmetal.GoldenSuite.Cases.{excluded_ids}

-- The URL names the package on GitHub and has no user, query or fragment.
pub record IsPackageUrl (u : Url) : Type 0 where
  pub scheme : u.scheme ≡ "https"
  pub host : u.host ≡ "github.com"
  pub no_user : u.user ≡ false
  pub no_query : u.raw_query ≡ ""
  pub no_fragment : u.fragment ≡ ""
  pub no_force : u.force_query ≡ false
  pub path : u.path ≡ "/rbxrobotica/rbx-rag-public-assistant"

abbrev pub IsPositive : ℤ → Type 0
IsPositive a = 0 < pos_part a

pub record IsValidSource (lib : Libs) (s : Source) : Type 0 where
  pub url : Url
  pub parses : lib.url_parse s.repository ≡ some url
  pub is_package : IsPackageUrl url
  pub commit : is_lower_hex lib s.commit_sha 40 ≡ true
  pub gate_hash : is_lower_hex lib s.quality_gate_sha256 64 ≡ true
  pub case_hash : is_lower_hex lib s.case_set_sha256 64 ≡ true
  pub count : IsPositive s.case_count

-- Each excluded case has a reason, and their ids are non-empty and distinct.
pub record AreExclusions (items : List ExcludedCase) : Type 0 where
  pub ids : UniqueNonempty (excluded_ids items)
  pub reasons : All (λ (item : ExcludedCase). item.reason ≢ "") items

pub record IsIdentified (lib : Libs) (m : Manifest) : Type 0 where
  pub schema : m.schema_version ≡ "1.0"
  pub suite : m.suite_id ≢ ""
  pub package_id : m.package_id ≡ "rbx-rag-public-assistant"
  pub accepted : m.status ≡ "accepted"
  pub authority : m.authority ≡ "truthmetal"
  pub executor : m.intended_executor ≡ "verentir"
  pub shadow : m.mode ≡ "shadow"
  pub on_main : m.acceptance_effective_only_on_main ≡ true
  pub no_rollout : m.rollout_authorized ≡ false
  pub dated : lib.is_date_only m.proposed_at ≡ true
  pub ref : m.canonical_ref ≡ "refs/heads/main"

-- The pinned hashes and counts match the two artifacts' bytes and the lists of the manifest.
pub record PinsArtifacts (lib : Libs) (m : Manifest) (gate_bytes case_bytes : List ℕ) : Type 0 where
  pub gates : m.accepted_artifacts.quality_gate_sha256 ≡ sha256_hex lib gate_bytes
  pub cases : m.accepted_artifacts.case_set_sha256 ≡ sha256_hex lib case_bytes
  pub count : IsPositive m.accepted_artifacts.case_count
  pub some_blocked : m.blocked_evidence_document_ids ≢ []
  pub source_count :
      m.source.case_count ≡ add64 m.accepted_artifacts.case_count (pos (length m.excluded_cases))
  pub blocked : UniqueNonempty m.blocked_evidence_document_ids
  pub excluded : AreExclusions m.excluded_cases
  pub anchor :
      (m.signing_trust_anchor_status ≡ "pending") ⊎ (m.signing_trust_anchor_status ≡ "accepted")

pub record IsValidManifest (lib : Libs) (m : Manifest) (gate_bytes case_bytes : List ℕ)
    : Type 0 where
  pub identity : IsIdentified lib m
  pub source : IsValidSource lib m.source
  pub pins : PinsArtifacts lib m gate_bytes case_bytes
