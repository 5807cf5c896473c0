-- ===== src/Examples/Evidences.antt =====
-- Runs of llama-cpp-sys-2/build_evidence.rs, with one file that nobody writes, and a hash of one letter.
use mathlib.Core.List.{Permᴰ, append-nil}
use llama_cpp_rs.Prelude.{◌≡◌, refl, sym, ◌∙◌, ◌⊎◌, true, false, List, [], ◌∷◌, ◌++◌, some, arith}
use llama_cpp_rs.Prelude.Run.{ok}
use llama_cpp_rs.Prelude.Result
use llama_cpp_rs.Prelude.Text.{
  Text, codes, text_eqb, text_ltb, starts_with, ends_with, split, cons_head, split_once,
}
use llama_cpp_rs.Evidence.{
  NativeLinkage, GgmlOrigin, BackendLinkage, PathBuf, ArtifactInput, BuildEvidence, LinkageEvidence,
  selected_external,
}
use llama_cpp_rs.Evidence.Order.{insert, contains_key, into_values}
use llama_cpp_rs.Evidence.Names.{
  validate_logical_name, is_name_byte, all_bytes, any_bytes, is_bad_component, any_bad,
  is_line_break, cargo_directive_path,
}
use llama_cpp_rs.Evidence.Digest.{evidence_digest}
use llama_cpp_rs.Evidence.Files.{
  Metadata, FileSystem, hash_stable_file, hash_regular, hash_open_file, hash_rest, hash_checked,
  same_file_snapshot, same_time, platform_file_identity,
}
use llama_cpp_rs.Evidence.Files.Hashing.{Stays, hash_stable_file-eq}
use llama_cpp_rs.Evidence.Features.{validate_features, validate_from, is_known, not_above}
use llama_cpp_rs.Evidence.Collection.{
  World, collect, collect_all, collect_one, checked, rerun_directive, print_rerun, fingerprint,
  fingerprinted, insert_evidence, evidence_of,
}
use llama_cpp_rs.Evidence.Collection.Sound.{Records, collect-Records}
use llama_cpp_rs.Evidence.Collection.Reordered.{Unwritten, collect-perm}
use llama_cpp_rs.Evidence.Collection.Collision.{HasCollision, collect-collision}
use llama_cpp_rs.Evidence.Ggml.{
  system_ggml_artifacts, lines, lines_of, strip_cr, strip_suffix, trim_end_matches, logical_byte,
  logical_bytes, logical_name_of, is_system_ggml_library_key, entry_of, add_library, add_entry,
  add_lines, required_names, check_required,
}
use llama_cpp_rs.Evidence.Ggml.Required.{IsSystem, system_ggml_artifacts-IsSystem}

abbrev library : Text
library = b'l' ∷ b'i' ∷ b'b' ∷ []

abbrev info : Metadata
info = record {
  is_file = true;
  len = 3;
  modified = some 7;
  dev = 1;
  ino = 2;
  ctime = 7;
  ctime_nsec = 0;
}

-- Every path leads to one file; the world is what is left to read.
abbrev files : FileSystem Text (Unit {0})
files = record {
  open_file = λ path s. ok tt library;
  metadata = λ file s. ok info s;
  read = λ file size s. ok s [];
  rewind = λ file s. ok tt library;
}

abbrev hash : Text → Text
hash t = b'f' ∷ []

abbrev path : PathBuf
path = record { bytes = codes "/lib/x"; is_utf8 = true }

abbrev files-Stays : Stays files path library
files-Stays = record {
  file = tt;
  info = info;
  At = λ rest s. rest ≡ s;
  opens = λ s. (library, refl, refl);
  stats = λ rest s at. refl;
  reads = λ rest s at. (s, [], [], refl, at ∙ sym (append-nil s), refl, λ e. at ∙ e);
  rewinds = λ rest s at. (library, refl, refl);
}

hash_stable_file-eq_example :
    (s' : Text) × (hash_stable_file files hash 4 path []
      ≡ ok (files-Stays.info.len, hash library) s')
hash_stable_file-eq_example = hash_stable_file-eq files hash files-Stays 4 [] (ground arith) refl

abbrev linkage : LinkageEvidence
linkage = record {
  local = NativeLinkage.static_;
  ggml_origin = GgmlOrigin.vendored;
  ggml = NativeLinkage.static_;
  backends = BackendLinkage.linked;
}

abbrev main : ArtifactInput
main = record { logical_name = codes "lib/b"; path = path; external = false }

abbrev other : ArtifactInput
other = record { logical_name = codes "lib/a"; path = path; external = true }

abbrev features : List Text
features = codes "common" ∷ []

abbrev evidence : BuildEvidence
evidence = record {
  features = features;
  linkage = linkage;
  artifacts =
      record { logical_name = codes "lib/a"; byte_len = 3; sha256 = b'f' ∷ [] }
      ∷ record { logical_name = codes "lib/b"; byte_len = 3; sha256 = b'f' ∷ [] }
      ∷ [];
  digest = b'f' ∷ [];
}

abbrev before : World Text
before = record { files = []; printed = [] }

abbrev after : World Text
after = record { files = []; printed = codes "cargo:rerun-if-changed=/lib/x" ∷ [] }

collected : collect files hash 4 features linkage (main ∷ other ∷ []) before ≡ ok evidence after
unfolding collect collect_all collect_one checked rerun_directive print_rerun fingerprint
    fingerprinted insert_evidence evidence_of hash_stable_file hash_regular hash_open_file hash_rest
    hash_checked same_file_snapshot same_time platform_file_identity validate_logical_name
    is_name_byte all_bytes any_bytes is_bad_component any_bad is_line_break cargo_directive_path
    validate_features validate_from is_known not_above evidence_digest insert contains_key
    into_values text_eqb text_ltb split cons_head
collected = refl

collect-Records_example : Records files hash 4 features linkage (main ∷ other ∷ []) evidence
collect-Records_example =
    collect-Records files hash 4 features linkage (main ∷ other ∷ []) before collected

files-Unwritten : Unwritten files hash 4
unfolding hash_stable_file
files-Unwritten p s t s' r h = (s', h)

collect-perm_example :
    (v' : World Text) × (collect files hash 4 features linkage (other ∷ main ∷ []) after
      ≡ ok evidence v')
collect-perm_example =
    collect-perm files hash 4 files-Unwritten features linkage (Permᴰ.swap refl refl) before after
      collected

collect-collision_example : (evidence ≡ evidence) ⊎ HasCollision hash
collect-collision_example =
    collect-collision files hash 4 (λ t. (λ e. ground (arith, e), tt)) features features linkage
      linkage (main ∷ other ∷ []) (main ∷ other ∷ []) before before collected collected refl

abbrev ggml : ArtifactInput
ggml = record {
  logical_name = codes "system-ggml/ggml/link";
  path = record { bytes = codes "/l"; is_utf8 = true };
  external = true;
}

abbrev base : ArtifactInput
base = record {
  logical_name = codes "system-ggml/ggml-base/link";
  path = record { bytes = codes "/b"; is_utf8 = true };
  external = true;
}

abbrev from_text : Text → PathBuf
from_text t = record { bytes = t; is_utf8 = true }

abbrev cache : Text
cache =
    codes "GGML_LIBRARY:FILEPATH=/l" ++ (10 ∷ (codes "GGML_BASE_LIBRARY:FILEPATH=/b" ++ (10 ∷ [])))

cached : system_ggml_artifacts from_text (Result.ok cache) false ≡ Result.ok (base ∷ ggml ∷ [])
unfolding system_ggml_artifacts lines lines_of strip_cr strip_suffix trim_end_matches logical_byte
    logical_bytes logical_name_of is_system_ggml_library_key entry_of add_library add_entry
    add_lines required_names check_required insert contains_key into_values text_eqb text_ltb split
    cons_head split_once starts_with ends_with selected_external
cached = refl

system_ggml_artifacts-IsSystem_example : IsSystem from_text false (base ∷ ggml ∷ [])
system_ggml_artifacts-IsSystem_example =
    system_ggml_artifacts-IsSystem from_text (Result.ok cache) false (base ∷ ggml ∷ []) cached
