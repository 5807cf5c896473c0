-- ===== src/Evidence.antt =====
-- llama-cpp-sys-2/build_evidence.rs: what a build records of its native artifacts. The linkage, the
-- inputs and their names, and the errors; `Text` is a list of bytes.
pub mod Names
pub mod Order
pub mod Features
pub mod Files
pub mod Collection
pub mod Digest
pub mod Ggml
use llama_cpp_rs.Prelude.{ℕ, Bool, true, false, List, ◌∷◌, ◌++◌}
use llama_cpp_rs.Prelude.Text.{Text, codes, to_string}

abbrev pub evidence_format : Text
evidence_format = codes "llama.native-build-evidence.v1"

abbrev pub max_artifacts : ℕ
max_artifacts = 64

abbrev pub max_logical_name_bytes : ℕ
max_logical_name_bytes = 96

pub data NativeLinkage : Type 0 where
  static_ shared : NativeLinkage

pub data GgmlOrigin : Type 0 where
  vendored system : GgmlOrigin

pub data BackendLinkage : Type 0 where
  linked dynamic_modules : BackendLinkage

pub record LinkageEvidence : Type 0 where
  pub local : NativeLinkage
  pub ggml_origin : GgmlOrigin
  pub ggml : NativeLinkage
  pub backends : BackendLinkage

unfoldable pub native_as_str : NativeLinkage → Text
native_as_str static_ = codes "static"
native_as_str shared = codes "shared"

unfoldable pub origin_as_str : GgmlOrigin → Text
origin_as_str vendored = codes "vendored"
origin_as_str system = codes "system"

unfoldable pub backend_as_str : BackendLinkage → Text
backend_as_str linked = codes "linked"
backend_as_str dynamic_modules = codes "dynamic-modules"

unfoldable pub linkage_canonical : LinkageEvidence → Text
linkage_canonical l =
    codes "local="
    ++ (native_as_str l.local
        ++ (codes ";ggml-origin="
            ++ (origin_as_str l.ggml_origin
                ++ (codes ";ggml="
                    ++ (native_as_str l.ggml
                        ++ (codes ";backends=" ++ backend_as_str l.backends))))))

-- A path: its bytes, and whether they are UTF-8.
pub record PathBuf : Type 0 where
  pub bytes : Text
  pub is_utf8 : Bool

pub record ArtifactInput : Type 0 where
  pub logical_name : Text
  pub path : PathBuf
  pub external : Bool

unfoldable pub produced : Text → PathBuf → ArtifactInput
produced logical_name path = record { logical_name = logical_name; path = path; external = false }

unfoldable pub selected_external : Text → PathBuf → ArtifactInput
selected_external logical_name path = record {
  logical_name = logical_name;
  path = path;
  external = true;
}

pub record ArtifactEvidence : Type 0 where
  pub logical_name : Text
  pub byte_len : ℕ
  pub sha256 : Text

unfoldable pub artifact_canonical : ArtifactEvidence → Text
artifact_canonical a = a.logical_name ++ (b'|' ∷ (to_string a.byte_len ++ (b'|' ∷ a.sha256)))

pub record BuildEvidence : Type 0 where
  pub features : List Text
  pub linkage : LinkageEvidence
  pub artifacts : List ArtifactEvidence
  pub digest : Text

-- `io::Error`: the two that the code makes, and those of the system. `unfinished` is none of them: it
-- says that the fuel of the reading loop ran out.
pub data IoError : Type 0 where
  not_regular_file changed_while_fingerprinted unfinished : IoError
  os : ℕ → IoError

-- The errors, which the code gives as messages.
pub data EvidenceError : Type 0 where
  no_artifacts : EvidenceError
  too_many_artifacts : ℕ → EvidenceError
  unknown_feature : Text → EvidenceError
  features_not_sorted : EvidenceError
  unrecognized_features : List Text → EvidenceError
  name_length name_not_canonical name_component : Text → EvidenceError
  path_not_utf8 path_line_break : EvidenceError
  cannot_fingerprint : Text → IoError → EvidenceError
  duplicate_name : Text → EvidenceError
  cannot_read_cache : ℕ → EvidenceError
  not_found duplicate_system missing_required : Text → EvidenceError
