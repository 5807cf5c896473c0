-- ===== src/Evidence/Ggml/Required.antt =====
-- build_evidence.rs: what `system_ggml_artifacts` returns.
use mathlib.Core.Path.{subst, sym}
use llama_cpp_rs.Prelude.{
  ℕ, ◌≡◌, refl, ◌∙◌, Bool, true, false, not, ◌||◌, List, [], ◌∷◌, Option, none, some, All, arith,
  if_rule,
}
use llama_cpp_rs.Prelude.Result.{Result, ok, err, ◌>>=◌}
use llama_cpp_rs.Prelude.Text.{Text, codes, text_eqb, text_ltb, ends_with}
use llama_cpp_rs.Evidence.{PathBuf, ArtifactInput, selected_external, EvidenceError}
use llama_cpp_rs.Evidence.Order.{insert, contains_key, keys, into_values, IsStrict, insert-IsStrict}
use llama_cpp_rs.Evidence.Ggml.{
  Found, logical_name_of, entry_of, add_library, add_entry, add_lines, required_names,
  check_required, lines, is_system_ggml_library_key, system_ggml_artifacts,
}

abbrev pub logical_names : List ArtifactInput → List Text
logical_names [] = []
logical_names (a ∷ inputs) = a.logical_name ∷ logical_names inputs

-- whether one of the inputs has the name
unfoldable pub has_input : Text → List ArtifactInput → Bool
has_input k [] = false
has_input k (a ∷ inputs) = text_eqb k a.logical_name || has_input k inputs

module _ (path_from : Text → PathBuf) where
  -- An input of a library that was found: external, with the path of a value that names a file.
  abbrev pub IsLibrary : ArtifactInput → Type 0
  IsLibrary a =
      (a.external ≡ true)
      × ((value : Text) × (a.path ≡ path_from value)
          × (text_eqb value [] ≡ false)
          × (ends_with value (codes "-NOTFOUND") ≡ false))

  abbrev Filed : Text × ArtifactInput → Type 0
  Filed (k, a) = (a.logical_name ≡ k) × IsLibrary a

  abbrev IsFiled : Found → Type 0
  IsFiled found = All Filed found × IsStrict (keys found)

  insert-Filed :
      (k : Text) (a : ArtifactInput) (m : Found)
      → Filed (k, a)
      → All Filed m
      → All Filed (insert k a m)
  unfolding insert
  insert-Filed k a [] f h = (f, tt)
  insert-Filed k a ((j, b) ∷ m) f (g, h) =
      if_rule (All Filed) (text_eqb k j) _ _ (λ (e : text_eqb k j ≡ true). (f, h))
        (λ (e : text_eqb k j ≡ false).
          if_rule (All Filed) (text_ltb k j) _ _ (λ (e : text_ltb k j ≡ true). (f, (g, h)))
            (λ (e : text_ltb k j ≡ false). (g, insert-Filed k a m f h)))

  -- What holds of the result, if there is one.
  abbrev OkIs : (Found → Type 0) → Result EvidenceError Found → Type 0
  OkIs P (ok found) = P found
  OkIs P (err e) = Unit

  add_library-IsFiled :
      (found : Found) (key value : Text)
      → IsFiled found
      → OkIs IsFiled (add_library path_from found key value)
  unfolding add_library selected_external
  add_library-IsFiled found key value (f, s) =
      let name = logical_name_of key in
      if_rule (OkIs IsFiled) (text_eqb value [] || ends_with value (codes "-NOTFOUND")) _ _
        (λ _. tt)
        (λ (e : (text_eqb value [] || ends_with value (codes "-NOTFOUND")) ≡ false).
          if_rule (OkIs IsFiled) (contains_key name found) _ _ (λ _. tt)
            (λ _. (
              insert-Filed name _ found
                  (refl, (refl, (value, refl, (ground arith), (ground arith)))) f,
              insert-IsStrict name _ found s,
            )))

  add_entry-IsFiled :
      (found : Found) (o : Option (Text × Text × Text))
      → IsFiled found
      → OkIs IsFiled (add_entry path_from found o)
  unfolding add_entry
  add_entry-IsFiled found none f = f
  add_entry-IsFiled found (some (key, kind, value)) f =
      if_rule (OkIs IsFiled)
        (not (text_eqb kind (codes "FILEPATH")) || not (is_system_ggml_library_key key)) (ok found)
        _ (λ _. f) (λ _. add_library-IsFiled found key value f)

  bind-OkIs :
      (r : Result EvidenceError Found) (k : Found → Result EvidenceError Found)
      → OkIs IsFiled r
      → ((found : Found) → IsFiled found → OkIs IsFiled (k found))
      → OkIs IsFiled (r >>= k)
  bind-OkIs (ok found) k p q = q found p
  bind-OkIs (err e) k p q = tt

  add_lines-IsFiled :
      (found : Found) (rest : List Text)
      → IsFiled found
      → OkIs IsFiled (add_lines path_from found rest)
  unfolding add_lines
  add_lines-IsFiled found [] f = f
  add_lines-IsFiled found (line ∷ rest) f =
      bind-OkIs (add_entry path_from found (entry_of line)) _
        (add_entry-IsFiled found (entry_of line) f) (λ found' f'. add_lines-IsFiled found' rest f')

  names-into_values : (m : Found) → All Filed m → logical_names (into_values m) ≡ keys m
  unfolding keys into_values
  names-into_values [] f = refl
  names-into_values ((k, a) ∷ m) (f, g) = ground (arith, names-into_values m g)

  has_input-into_values :
      (k : Text) (m : Found) → All Filed m → has_input k (into_values m) ≡ contains_key k m
  unfolding has_input into_values contains_key
  has_input-into_values k [] f = refl
  has_input-into_values k ((j, a) ∷ m) (f, g) = ground (arith, has_input-into_values k m g)

  into_values-IsLibrary : (m : Found) → All Filed m → All IsLibrary (into_values m)
  unfolding into_values
  into_values-IsLibrary [] f = tt
  into_values-IsLibrary ((k, a) ∷ m) ((n, l), g) = (l, into_values-IsLibrary m g)

  check_required-ok :
      (found : Found) (rest : List Text) (inputs : List ArtifactInput)
      → check_required found rest ≡ ok inputs
      → (into_values found ≡ inputs) × All (λ k. contains_key k found ≡ true) rest
  unfolding check_required
  check_required-ok found [] inputs h = ground arith
  check_required-ok found (k ∷ rest) inputs h = ground (arith, check_required-ok found rest inputs)

  -- The inputs of a system GGML.
  abbrev pub IsSystem : Bool → List ArtifactInput → Type 0
  IsSystem require_cpu inputs =
      IsStrict (logical_names inputs)
      × All IsLibrary inputs
      × All (λ k. has_input k inputs ≡ true) (required_names require_cpu)

  all_required :
      (rest : List Text) (m : Found)
      → All Filed m
      → All (λ k. contains_key k m ≡ true) rest
      → All (λ k. has_input k (into_values m) ≡ true) rest
  all_required [] m f a = tt
  all_required (k ∷ rest) m f (p, a) = (has_input-into_values k m f ∙ p, all_required rest m f a)

  checked-IsSystem :
      (require_cpu : Bool) (r : Result EvidenceError Found) (inputs : List ArtifactInput)
      → OkIs IsFiled r
      → (r >>= λ found. check_required found (required_names require_cpu)) ≡ ok inputs
      → IsSystem require_cpu inputs
  checked-IsSystem require_cpu (err e) inputs f h = cc
  checked-IsSystem require_cpu (ok m) inputs (f, s) h =
      let (same, required) = check_required-ok m (required_names require_cpu) inputs h in
      subst (IsSystem require_cpu) same (
        subst IsStrict (sym (names-into_values m f)) s,
        into_values-IsLibrary m f,
        all_required (required_names require_cpu) m f required,
      )

  -- The inputs that are read from a cache have each name once, in ascending order; each is external and
  -- its path is a value that is neither empty nor ends with -NOTFOUND; and the libraries that are
  -- required are among them, that of the CPU where it is asked for.
  pub system_ggml_artifacts-IsSystem :
      (cache : Result ℕ Text) (require_cpu : Bool) (inputs : List ArtifactInput)
      → system_ggml_artifacts path_from cache require_cpu ≡ ok inputs
      → IsSystem require_cpu inputs
  unfolding system_ggml_artifacts
  system_ggml_artifacts-IsSystem (err e) require_cpu inputs h = cc
  system_ggml_artifacts-IsSystem (ok contents) require_cpu inputs h =
      checked-IsSystem require_cpu (add_lines path_from [] (lines contents)) inputs
        (add_lines-IsFiled [] (lines contents) (tt, unfold keys in tt)) h
