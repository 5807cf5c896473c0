-- ===== src/Evidence/Ggml.antt =====
-- build_evidence.rs: `system_ggml_artifacts`, which reads the libraries of a system GGML from CMake's
-- cache. The contents of the cache, or the error of reading it, are an argument.
pub mod Required
use llama_cpp_rs.Prelude.{
  ℕ, zero, suc, ◌+◌, Bool, true, false, not, ◌&&◌, ◌||◌, List, [], ◌∷◌, ◌++◌, length, leb, ◌==◌,
  Option, none, some, if◌then◌else◌,
}
use llama_cpp_rs.Prelude.Result.{Result, ok, err, ◌>>=◌}
use llama_cpp_rs.Prelude.Text.{Text, codes, text_eqb, starts_with, ends_with, split, split_once}
use llama_cpp_rs.Evidence.{
  PathBuf, ArtifactInput, selected_external, EvidenceError, cannot_read_cache, not_found,
  duplicate_system, missing_required,
}
use llama_cpp_rs.Evidence.Order.{insert, contains_key, into_values}

-- `lines()`: the parts between line feeds, without a last one that is empty and without a carriage
-- return at their ends
unfoldable pub strip_cr : Text → Text
strip_cr [] = []
strip_cr (c ∷ []) = if c == 13 then [] else c ∷ []
strip_cr (c ∷ d ∷ t) = c ∷ strip_cr (d ∷ t)

unfoldable pub lines_of : List Text → List Text
lines_of [] = []
lines_of ([] ∷ []) = []
lines_of ((c ∷ t) ∷ []) = (c ∷ t) ∷ []
lines_of (p ∷ q ∷ ps) = strip_cr p ∷ lines_of (q ∷ ps)

unfoldable pub lines : Text → List Text
lines contents = lines_of (split 10 contents)

-- the text before `suffix`, if it ends with it
unfoldable pub strip_suffix : Text → Text → Option Text
strip_suffix [] suffix = if text_eqb [] suffix then some [] else none
strip_suffix (c ∷ t) suffix =
    let rest = strip_suffix t suffix in
    if text_eqb (c ∷ t) suffix then some [] else elim rest [ none ↦ none | some u ↦ some (c ∷ u) ]

-- `trim_end_matches(suffix)`, where each round takes a byte at least
unfoldable pub trim_end_matches : ℕ → Text → Text → Text
trim_end_matches zero t suffix = t
trim_end_matches (suc fuel) t suffix = elim (strip_suffix t suffix) [
  | none ↦ t
  | some u ↦ trim_end_matches fuel u suffix
]

-- `to_ascii_lowercase` and `replace('_', "-")` of a byte
unfoldable pub logical_byte : ℕ → ℕ
logical_byte c = if leb b'A' c && leb c b'Z' then c + 32 else (if c == b'_' then b'-' else c)

unfoldable pub logical_bytes : Text → Text
logical_bytes [] = []
logical_bytes (c ∷ t) = logical_byte c ∷ logical_bytes t

unfoldable pub logical_name_of : Text → Text
logical_name_of key =
    codes "system-ggml/"
    ++ (logical_bytes (trim_end_matches (length key) key (codes "_LIBRARY")) ++ codes "/link")

unfoldable pub is_system_ggml_library_key : Text → Bool
is_system_ggml_library_key key =
    text_eqb key (codes "GGML_LIBRARY")
    || (starts_with key (codes "GGML_") && ends_with key (codes "_LIBRARY"))

-- `line.split_once('=')`, then `declaration.split_once(':')`: the key, the kind and the value
unfoldable pub entry_of : Text → Option (Text × Text × Text)
entry_of line = elim (split_once b'=' line) [
  | none ↦ none
  | some (declaration, value) ↦ elim (split_once b':' declaration) [
    | none ↦ none
    | some (key, kind) ↦ some (key, kind, value)
  ]
]

abbrev pub Found : Type 0
Found = List (Text × ArtifactInput)

unfoldable pub add_library : (Text → PathBuf) → Found → Text → Text → Result EvidenceError Found
add_library path_from found key value =
    let name = logical_name_of key in
    if text_eqb value [] || ends_with value (codes "-NOTFOUND")
    then err (not_found key)
    else (if contains_key name found
        then err (duplicate_system name)
        else ok (insert name (selected_external name (path_from value)) found))

-- one round of the loop
unfoldable pub add_entry :
    (Text → PathBuf) → Found → Option (Text × Text × Text) → Result EvidenceError Found
add_entry path_from found none = ok found
add_entry path_from found (some (key, kind, value)) =
    if not (text_eqb kind (codes "FILEPATH")) || not (is_system_ggml_library_key key)
    then ok found
    else add_library path_from found key value

unfoldable pub add_lines : (Text → PathBuf) → Found → List Text → Result EvidenceError Found
add_lines path_from found [] = ok found
add_lines path_from found (line ∷ rest) =
    add_entry path_from found (entry_of line) >>= λ found'. add_lines path_from found' rest

unfoldable pub required_names : Bool → List Text
required_names require_cpu =
    codes "system-ggml/ggml/link"
    ∷ codes "system-ggml/ggml-base/link"
    ∷ (if require_cpu then codes "system-ggml/ggml-cpu/link" ∷ [] else [])

unfoldable pub check_required : Found → List Text → Result EvidenceError (List ArtifactInput)
check_required found [] = ok (into_values found)
check_required found (required ∷ rest) =
    let more = check_required found rest in
    if contains_key required found then more else err (missing_required required)

unfoldable pub system_ggml_artifacts :
    (Text → PathBuf) → Result ℕ Text → Bool → Result EvidenceError (List ArtifactInput)
system_ggml_artifacts path_from (err e) require_cpu = err (cannot_read_cache e)
system_ggml_artifacts path_from (ok contents) require_cpu =
    add_lines path_from [] (lines contents) >>= λ found.
    check_required found (required_names require_cpu)
