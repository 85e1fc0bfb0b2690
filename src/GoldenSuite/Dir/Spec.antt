-- ===== src/GoldenSuite/Dir/Spec.antt =====
-- What an accepted directory holds: how its files were read, and that they form a valid suite.
use truthmetal.Base.{ℕ, String, ◌≡◌, true, some, List, length}
use truthmetal.GoldenSuite.Contract.{Manifest, QualityGateContract, CaseSetContract, Summary}
use truthmetal.GoldenSuite.Libs.{Libs}
use truthmetal.GoldenSuite.Manifest.Spec.{IsValidManifest}
use truthmetal.GoldenSuite.Gates.Spec.{IsValidGates}
use truthmetal.GoldenSuite.Cases.Spec.{IsValidCaseSet}
use truthmetal.GoldenSuite.Dir.{FileInfo, FileSystem, Decoder}

module _ {W : Type 0} (fs : FileSystem W) where
  -- From the world `w`, `path` is a regular file, the file that was opened is the same one and
  -- still regular, it was read whole, and its bytes are one JSON value with nothing behind it.
  pub record Reads {A : Type 0} (json : Decoder A) (path : String) (w : W) (content : List ℕ)
      (value : A) : Type 0 where
    pub info : FileInfo
    pub file : ℕ
    pub opened : FileInfo
    pub rest : List ℕ
    pub inspected : (fs.lstat path w).0 ≡ some info
    pub regular : info.regular ≡ true
    pub opens : (fs.open_file path (fs.lstat path w).1).0 ≡ some file
    pub inspected_again : (fs.stat file (fs.open_file path (fs.lstat path w).1).1).0 ≡ some opened
    pub still_regular : opened.regular ≡ true
    pub same : info.identity ≡ opened.identity
    pub read :
        (fs.read_all file (fs.stat file (fs.open_file path (fs.lstat path w).1).1).1).0
        ≡ some content
    pub decodes : json.decode content ≡ some (value, rest)
    pub ends : json.at_eof rest ≡ true

  -- The world behind the reading of `path` as the given open file.
  abbrev pub behind : String → ℕ → W → W
  behind path file w =
      (fs.read_all file (fs.stat file (fs.open_file path (fs.lstat path w).1).1).1).1

  module _ (lib : Libs) (manifest_json : Decoder Manifest)
      (gates_json : Decoder QualityGateContract) (cases_json : Decoder CaseSetContract) where
    pub record IsAcceptedSuite (directory : String) (w : W) (summary : Summary) : Type 0 where
      pub manifest : Manifest
      pub gates : QualityGateContract
      pub cases : CaseSetContract
      pub manifest_bytes : List ℕ
      pub gate_bytes : List ℕ
      pub case_bytes : List ℕ
      pub reads_manifest :
          Reads manifest_json (fs.join directory "manifest.json") w manifest_bytes manifest
      pub gate_name : manifest.accepted_artifacts.quality_gate_file ≡ "quality-gates.json"
      pub case_name : manifest.accepted_artifacts.case_set_file ≡ "cases.json"
      -- The files are read one after another.
      pub reads_gates :
          Reads gates_json
            (fs.join directory "quality-gates.json")
            (behind (fs.join directory "manifest.json") reads_manifest.file w)
            gate_bytes
            gates
      pub reads_cases :
          Reads cases_json
            (fs.join directory "cases.json")
            (behind
              (fs.join directory "quality-gates.json")
              reads_gates.file
              (behind (fs.join directory "manifest.json") reads_manifest.file w))
            case_bytes
            cases
      pub manifest_valid : IsValidManifest lib manifest gate_bytes case_bytes
      pub gates_valid : IsValidGates lib manifest gates
      pub cases_valid : IsValidCaseSet lib manifest gates cases
      pub summarised : summary ≡ record {
        suite_id = manifest.suite_id;
        package_id = manifest.package_id;
        case_count = length cases.cases;
        gate_status = gates.status;
        case_status = cases.status;
        signing_trust_anchor_status = manifest.signing_trust_anchor_status;
        rollout_authorized = manifest.rollout_authorized;
      }
