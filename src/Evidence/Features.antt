-- ===== src/Evidence/Features.antt =====
-- build_evidence.rs: `effective_features` and `validate_features`. The environment is the list of the
-- keys of its variables, those that are UTF-8.
pub mod Sorted
use llama_cpp_rs.Prelude.{
  Bool, true, false, not, ◌||◌, ◌&&◌, List, [], ◌∷◌, Option, none, some, if◌then◌else◌,
}
use llama_cpp_rs.Prelude.Result.{Result, ok, err}
use llama_cpp_rs.Prelude.Text.{Text, codes, text_eqb, text_ltb, starts_with}
use llama_cpp_rs.Evidence.{
  EvidenceError, unknown_feature, features_not_sorted, unrecognized_features,
}
use llama_cpp_rs.Evidence.Order.{insert, contains_key, get, keys}

abbrev pub known_features : List (Text × Text)
known_features =
    (codes "CARGO_FEATURE_COMMON", codes "common")
    ∷ (codes "CARGO_FEATURE_CUDA", codes "cuda")
    ∷ (codes "CARGO_FEATURE_CUDA_NO_VMM", codes "cuda-no-vmm")
    ∷ (codes "CARGO_FEATURE_DEFAULT", codes "default")
    ∷ (codes "CARGO_FEATURE_DYNAMIC_BACKENDS", codes "dynamic-backends")
    ∷ (codes "CARGO_FEATURE_DYNAMIC_LINK", codes "dynamic-link")
    ∷ (codes "CARGO_FEATURE_METAL", codes "metal")
    ∷ (codes "CARGO_FEATURE_MKL", codes "mkl")
    ∷ (codes "CARGO_FEATURE_MTMD", codes "mtmd")
    ∷ (codes "CARGO_FEATURE_OPENCL", codes "opencl")
    ∷ (codes "CARGO_FEATURE_OPENMP", codes "openmp")
    ∷ (codes "CARGO_FEATURE_ROCM", codes "rocm")
    ∷ (codes "CARGO_FEATURE_SHARED_STDCXX", codes "shared-stdcxx")
    ∷ (codes "CARGO_FEATURE_STATIC_OPENMP", codes "static-openmp")
    ∷ (codes "CARGO_FEATURE_STATIC_STDCXX", codes "static-stdcxx")
    ∷ (codes "CARGO_FEATURE_SYSTEM_GGML", codes "system-ggml")
    ∷ (codes "CARGO_FEATURE_SYSTEM_GGML_STATIC", codes "system-ggml-static")
    ∷ (codes "CARGO_FEATURE_VULKAN", codes "vulkan")
    ∷ []

-- `active_env`: the keys that start with the prefix, as a `BTreeSet`
unfoldable pub active_env : List Text → List (Text × Unit {0})
active_env [] = []
active_env (key ∷ vars) =
    let rest = active_env vars in
    if starts_with key (codes "CARGO_FEATURE_") then insert key tt rest else rest

-- the keys that the table does not have
unfoldable pub unknown : List (Text × Text) → List Text → List Text
unknown table [] = []
unknown table (key ∷ env) =
    let rest = unknown table env in if contains_key key table then rest else key ∷ rest

-- the features of the keys that the table has
unfoldable pub features_of : List (Text × Text) → List Text → List Text
features_of table [] = []
features_of table (key ∷ env) = elim (get key table) [
  | none ↦ features_of table env
  | some feature ↦ feature ∷ features_of table env
]

-- `sort_unstable`: equal texts are the same, so every sort gives the same list
unfoldable pub sort_insert : Text → List Text → List Text
sort_insert x [] = x ∷ []
sort_insert x (y ∷ ys) =
    let rest = sort_insert x ys in if text_ltb y x then y ∷ rest else x ∷ y ∷ ys

unfoldable pub sort_unstable : List Text → List Text
sort_unstable [] = []
sort_unstable (x ∷ xs) = sort_insert x (sort_unstable xs)

unfoldable pub features_from : List (Text × Text) → List Text → Result EvidenceError (List Text)
features_from table env = elim (unknown table env) [
  | [] ↦ ok (sort_unstable (features_of table env))
  | key ∷ more ↦ err (unrecognized_features (key ∷ more))
]

unfoldable pub effective_features : List Text → Result EvidenceError (List Text)
effective_features vars = features_from known_features (keys (active_env vars))

-- whether the text is one of the features of the table
unfoldable pub is_known : List (Text × Text) → Text → Bool
is_known [] f = false
is_known ((k, g) ∷ table) f = text_eqb g f || is_known table f

-- `previous.is_some_and(|value| value >= feature)`
unfoldable pub not_above : Option Text → Text → Bool
not_above none feature = false
not_above (some value) feature = not (text_ltb value feature)

-- the loop, from the previous feature
unfoldable pub validate_from :
    List (Text × Text) → Option Text → List Text → Result EvidenceError (Unit {0})
validate_from table previous [] = ok tt
validate_from table previous (feature ∷ features) =
    let rest = validate_from table (some feature) features in
    if not (is_known table feature)
    then err (unknown_feature feature)
    else (if not_above previous feature then err features_not_sorted else rest)

unfoldable pub validate_features : List Text → Result EvidenceError (Unit {0})
validate_features features = validate_from known_features none features
