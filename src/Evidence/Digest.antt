-- ===== src/Evidence/Digest.antt =====
-- build_evidence.rs: the bytes that `evidence_digest` hashes.
pub mod Decimal
pub mod Injective
use llama_cpp_rs.Prelude.{List, [], ◌∷◌, ◌++◌, map}
use llama_cpp_rs.Prelude.Text.{Text}
use llama_cpp_rs.Evidence.{
  LinkageEvidence, linkage_canonical, ArtifactEvidence, artifact_canonical, evidence_format,
}

-- each text, followed by a null byte
unfoldable pub zero_ended : List Text → Text → Text
zero_ended [] rest = rest
zero_ended (t ∷ ts) rest = t ++ (0 ∷ zero_ended ts rest)

-- The updates of `evidence_digest`, one after the other.
unfoldable pub digest_input : List Text → LinkageEvidence → List ArtifactEvidence → Text
digest_input features linkage artifacts =
    evidence_format
    ++ (0
        ∷ zero_ended features (
            0
            ∷ (linkage_canonical linkage
                ++ (0 ∷ zero_ended (map artifact_canonical artifacts) []))))

unfoldable pub evidence_digest :
    (Text → Text) → List Text → LinkageEvidence → List ArtifactEvidence → Text
evidence_digest sha256 features linkage artifacts = sha256 (digest_input features linkage artifacts)
