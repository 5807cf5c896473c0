-- ===== src/Evidence/Collection.antt =====
-- build_evidence.rs: `BuildEvidence::collect` and `metadata_entries`. The state is the world of the file
-- system with the lines that were printed for Cargo.
pub mod Rounds
pub mod Sound
pub mod Reordered
pub mod Collision
use llama_cpp_rs.Prelude.{
  ℕ, suc, ◌+◌, ◌-◌, ◌/◌, ◌%◌, Bool, true, false, List, [], ◌∷◌, ◌++◌, length, ltb, ◌==◌,
  if◌then◌else◌,
}
use llama_cpp_rs.Prelude.Run.{Run, ok, err, panic, fault, Method, ◌>>=◌, ◌>>◌}
use llama_cpp_rs.Prelude.Result
use llama_cpp_rs.Prelude.Text.{Text, codes, join, to_string}
use llama_cpp_rs.Evidence.{
  PathBuf, ArtifactInput, ArtifactEvidence, artifact_canonical, BuildEvidence, LinkageEvidence,
  linkage_canonical, EvidenceError, no_artifacts, too_many_artifacts, cannot_fingerprint,
  duplicate_name, IoError, max_artifacts, evidence_format,
}
use llama_cpp_rs.Evidence.Names.{validate_logical_name, cargo_directive_path}
use llama_cpp_rs.Evidence.Features.{validate_features}
use llama_cpp_rs.Evidence.Files.{FileSystem, hash_stable_file}
use llama_cpp_rs.Evidence.Order.{insert, contains_key, into_values}
use llama_cpp_rs.Evidence.Digest.{evidence_digest}

pub record World (S : Type 0) : Type 0 where
  pub files : S
  pub printed : List Text

abbrev pub ByName : Type 0
ByName = List (Text × ArtifactEvidence)

-- `?` on a check that changes nothing
unfoldable pub checked :
    {S A : Type 0} → Result.Result EvidenceError A → Method (World S) EvidenceError A
checked (Result.ok a) w = ok a w
checked (Result.err e) w = err e w

-- `println!("cargo:rerun-if-changed={directive_path}")`
unfoldable pub print_rerun : {S : Type 0} → Text → Method (World S) EvidenceError (Unit {0})
print_rerun directive_path w =
    ok tt
      record w { printed = w.printed ++ ((codes "cargo:rerun-if-changed=" ++ directive_path) ∷ []) }

-- What is made of the result of a hashing: the artifact's entry, or the error with its name.
unfoldable pub fingerprinted :
    {S : Type 0}
    → Text
    → List Text
    → Run S IoError (ℕ × Text)
    → Run (World S) EvidenceError ArtifactEvidence
fingerprinted name printed (ok (byte_len, sha256) s) =
    ok record { logical_name = name; byte_len = byte_len; sha256 = sha256 }
      record { files = s; printed = printed }
fingerprinted name printed (err e s) =
    err (cannot_fingerprint name e) record { files = s; printed = printed }
fingerprinted name printed panic = panic
fingerprinted name printed fault = fault

module _ {S F : Type 0} (fs : FileSystem S F) (sha256 : Text → Text) (fuel : ℕ) where
  unfoldable pub rerun_directive : ArtifactInput → Method (World S) EvidenceError (Unit {0})
  rerun_directive input w =
      if input.external
      then (checked (cargo_directive_path input.path) >>= print_rerun) w
      else ok tt w

  unfoldable pub fingerprint : ArtifactInput → Method (World S) EvidenceError ArtifactEvidence
  fingerprint input w =
      fingerprinted input.logical_name w.printed
        (hash_stable_file fs sha256 fuel input.path w.files)

  unfoldable pub insert_evidence :
      ByName → ArtifactInput → ArtifactEvidence → Method (World S) EvidenceError ByName
  insert_evidence by_name input evidence w =
      if contains_key input.logical_name by_name
      then err (duplicate_name input.logical_name) w
      else ok (insert input.logical_name evidence by_name) w

  -- one round of the loop
  unfoldable pub collect_one : ByName → ArtifactInput → Method (World S) EvidenceError ByName
  collect_one by_name input =
      checked (validate_logical_name input.logical_name)
      >> (rerun_directive input >> (fingerprint input >>= insert_evidence by_name input))

  unfoldable pub collect_all : ByName → List ArtifactInput → Method (World S) EvidenceError ByName
  collect_all by_name [] w = ok by_name w
  collect_all by_name (input ∷ inputs) w =
      (collect_one by_name input >>= λ by_name'. collect_all by_name' inputs) w

  unfoldable pub evidence_of : List Text → LinkageEvidence → ByName → BuildEvidence
  evidence_of features linkage by_name =
      let artifacts = into_values by_name in
      record {
        features = features;
        linkage = linkage;
        artifacts = artifacts;
        digest = evidence_digest sha256 features linkage artifacts;
      }

  unfoldable pub collect :
      List Text
      → LinkageEvidence
      → List ArtifactInput
      → Method (World S) EvidenceError BuildEvidence
  collect features linkage inputs w =
      if length inputs == 0
      then err no_artifacts w
      else (if ltb max_artifacts (length inputs)
          then err (too_many_artifacts (length inputs)) w
          else (checked (validate_features features)
                >> (collect_all [] inputs >>= λ by_name w'.
                    ok (evidence_of features linkage by_name) w'))
              w)

-- `{index:02}`
unfoldable pub two_digits : ℕ → Text
two_digits index = if ltb index 10 then 48 ∷ to_string index else to_string index

unfoldable pub artifact_entries : ℕ → List ArtifactEvidence → List (Text × Text)
artifact_entries index [] = []
artifact_entries index (a ∷ artifacts) =
    (codes "build_evidence_artifact_" ++ two_digits index, artifact_canonical a)
    ∷ artifact_entries (index + 1) artifacts

unfoldable pub metadata_entries : BuildEvidence → List (Text × Text)
metadata_entries e =
    (codes "build_evidence_format", evidence_format)
    ∷ (codes "build_evidence_features", join b',' e.features)
    ∷ (codes "build_evidence_linkage", linkage_canonical e.linkage)
    ∷ (codes "build_evidence_artifact_count", to_string (length e.artifacts))
    ∷ (artifact_entries 0 e.artifacts ++ ((codes "build_evidence_sha256", e.digest) ∷ []))

-- `emit_cargo_metadata`, the lines that it prints
unfoldable pub emit_lines : List (Text × Text) → List Text
emit_lines [] = []
emit_lines ((key, value) ∷ entries) =
    (codes "cargo:" ++ (key ++ (b'=' ∷ value))) ∷ emit_lines entries

unfoldable pub emit_cargo_metadata : {S : Type 0} → BuildEvidence → World S → World S
emit_cargo_metadata e w = record w { printed = w.printed ++ emit_lines (metadata_entries e) }
