-- ===== src/Evidence/Collection/Sound.antt =====
-- build_evidence.rs: what an evidence that `collect` returns holds.
use mathlib.Core.Path.{subst}
use llama_cpp_rs.Prelude.{
  ℕ, ◌+◌, ◌≡◌, refl, sym, ◌∙◌, ◌≤◌, ◌<◌, Bool, true, false, ◌||◌, List, [], ◌∷◌, All, length, ltb,
  ◌==◌, arith, if_rule,
}
use llama_cpp_rs.Prelude.Run.{ok, >>=-ok_inv, unless_inv}
use llama_cpp_rs.Prelude.Result
use llama_cpp_rs.Prelude.Text.{Text, text_eqb, text_ltb}
use llama_cpp_rs.Evidence.{
  ArtifactInput, ArtifactEvidence, BuildEvidence, LinkageEvidence, no_artifacts, too_many_artifacts,
  max_artifacts,
}
use llama_cpp_rs.Evidence.Names.{IsCanonical}
use llama_cpp_rs.Evidence.Features.{validate_features}
use llama_cpp_rs.Evidence.Files.{FileSystem}
use llama_cpp_rs.Evidence.Order.{
  insert, contains_key, keys, into_values, IsStrict, insert-IsStrict, length-insert,
  length-into_values, contains_key-insert,
}
use llama_cpp_rs.Evidence.Digest.{evidence_digest}
use llama_cpp_rs.Evidence.Collection.{
  World, ByName, checked, collect_one, collect_all, evidence_of, collect,
}
use llama_cpp_rs.Evidence.Collection.Rounds.{IsHash, Filed, collect_one-ok, checked-ok}

-- whether the name is one of the inputs'
unfoldable pub is_named : Text → List ArtifactInput → Bool
is_named k [] = false
is_named k (input ∷ inputs) = text_eqb k input.logical_name || is_named k inputs

-- whether the name is one of the artifacts'
unfoldable pub is_recorded : Text → List ArtifactEvidence → Bool
is_recorded k [] = false
is_recorded k (a ∷ artifacts) = text_eqb k a.logical_name || is_recorded k artifacts

abbrev pub names : List ArtifactEvidence → List Text
names [] = []
names (a ∷ artifacts) = a.logical_name ∷ names artifacts

module _ {S F : Type 0} (fs : FileSystem S F) (sha256 : Text → Text) (fuel : ℕ) where
  insert-Filed :
      (k : Text) (a : ArtifactEvidence) (m : ByName)
      → Filed fs sha256 fuel (k, a)
      → All (Filed fs sha256 fuel) m
      → All (Filed fs sha256 fuel) (insert k a m)
  unfolding insert
  insert-Filed k a [] f h = (f, tt)
  insert-Filed k a ((j, b) ∷ m) f (g, h) =
      if_rule (All (Filed fs sha256 fuel)) (text_eqb k j) _ _ (λ (e : text_eqb k j ≡ true). (f, h))
        (λ (e : text_eqb k j ≡ false).
          if_rule (All (Filed fs sha256 fuel)) (text_ltb k j) _ _
            (λ (e : text_ltb k j ≡ true). (f, (g, h)))
            (λ (e : text_ltb k j ≡ false). (g, insert-Filed k a m f h)))

  -- What the rounds keep and add.
  collect_all-ok :
      (m : ByName) (inputs : List ArtifactInput) (w : World S) {w' : World S} {m' : ByName}
      → collect_all fs sha256 fuel m inputs w ≡ ok m' w'
      → All (Filed fs sha256 fuel) m
      → IsStrict (keys m)
      → All (Filed fs sha256 fuel) m'
        × IsStrict (keys m')
        × (length m' ≡ length m + length inputs)
        × ((k : Text) → contains_key k m' ≡ (contains_key k m || is_named k inputs))
  unfolding collect_all is_named
  collect_all-ok m [] w e f s = ground arith
  collect_all-ok m (input ∷ inputs) w e f s =
      let (m1, w1, e1, f1) = >>=-ok_inv (collect_one fs sha256 fuel m input) _ e in
      let (a, filed, fresh, added) = collect_one-ok fs sha256 fuel m input w e1 in
      let k = input.logical_name in
      let (g, t, n, c) =
        collect_all-ok m1 inputs w1 f1
          (subst (All (Filed fs sha256 fuel)) added (insert-Filed k a m filed f))
          (subst (λ l. IsStrict (keys l)) added (insert-IsStrict k a m s)) in
      (
        g,
        t,
        ground (arith, n, length-insert k a m fresh, added),
        λ j. ground (arith, c j, contains_key-insert j k a m, added),
      )

  names-into_values : (m : ByName) → All (Filed fs sha256 fuel) m → names (into_values m) ≡ keys m
  unfolding keys into_values
  names-into_values [] f = refl
  names-into_values ((k, a) ∷ m) (f, g) = ground (arith, names-into_values m g)

  is_recorded-into_values :
      (k : Text) (m : ByName)
      → All (Filed fs sha256 fuel) m
      → is_recorded k (into_values m) ≡ contains_key k m
  unfolding is_recorded into_values contains_key
  is_recorded-into_values k [] f = refl
  is_recorded-into_values k ((j, a) ∷ m) (f, g) = ground (arith, is_recorded-into_values k m g)

  -- An artifact that is filed under a canonical name, with a hash.
  abbrev pub IsFiled : ArtifactEvidence → Type 0
  IsFiled a = IsCanonical a.logical_name × IsHash fs sha256 a.sha256

  into_values-Filed : (m : ByName) → All (Filed fs sha256 fuel) m → All IsFiled (into_values m)
  unfolding into_values
  into_values-Filed [] f = tt
  into_values-Filed ((k, a) ∷ m) ((n, c, h), g) =
      ((subst IsCanonical (sym n) c, h), into_values-Filed m g)

  -- The evidence records the inputs.
  pub record Records (features : List Text) (linkage : LinkageEvidence)
      (inputs : List ArtifactInput) (e : BuildEvidence) : Type 0 where
    pub some_inputs : 0 < length inputs
    pub not_too_many : length inputs ≤ max_artifacts
    pub valid : validate_features features ≡ Result.ok tt
    pub of_features : e.features ≡ features
    pub of_linkage : e.linkage ≡ linkage
    pub as_many : length e.artifacts ≡ length inputs
    pub sorted : IsStrict (names e.artifacts)
    pub filed : All IsFiled e.artifacts
    pub same_names : (k : Text) → is_recorded k e.artifacts ≡ is_named k inputs
    pub digests : e.digest ≡ evidence_digest sha256 features linkage e.artifacts

  evidence_of-Records :
      (features : List Text) (linkage : LinkageEvidence) (inputs : List ArtifactInput) (m : ByName)
      → 0 < length inputs
      → length inputs ≤ max_artifacts
      → validate_features features ≡ Result.ok tt
      → All (Filed fs sha256 fuel) m
      → IsStrict (keys m)
      → length m ≡ length inputs
      → ((k : Text) → contains_key k m ≡ is_named k inputs)
      → Records features linkage inputs (evidence_of fs sha256 fuel features linkage m)
  unfolding evidence_of
  evidence_of-Records features linkage inputs m p q v f s n c = record {
    some_inputs = p;
    not_too_many = q;
    valid = v;
    of_features = refl;
    of_linkage = refl;
    as_many = length-into_values m ∙ n;
    sorted = subst IsStrict (sym (names-into_values m f)) s;
    filed = into_values-Filed m f;
    same_names = λ k. is_recorded-into_values k m f ∙ c k;
    digests = refl;
  }

  -- Whatever the file system does: an evidence that `collect` returns is for one to 64 inputs and valid
  -- features, which it keeps with the linkage; it has as many artifacts as inputs and the same names,
  -- each once, in ascending order, canonical, with a hash of some bytes; and its digest is that of
  -- these features, this linkage and these artifacts.
  pub collect-Records :
      (features : List Text) (linkage : LinkageEvidence) (inputs : List ArtifactInput) (w : World S)
      {w' : World S} {e : BuildEvidence}
      → collect fs sha256 fuel features linkage inputs w ≡ ok e w'
      → Records features linkage inputs e
  unfolding collect contains_key
  collect-Records features linkage inputs w h =
      let (some, h1) = unless_inv (length inputs == 0) no_artifacts w _ h in
      let (few, h2) =
        unless_inv (ltb max_artifacts (length inputs)) (too_many_artifacts (length inputs)) w _
          h1 in
      let (_, w1, e1, f1) = >>=-ok_inv (checked (validate_features features)) _ h2 in
      let (m, w2, e2, f2) = >>=-ok_inv (collect_all fs sha256 fuel [] inputs) _ f1 in
      let (valid, _) = checked-ok (validate_features features) w e1 in
      let (filed, sorted, n, c) = collect_all-ok [] inputs w1 e2 tt (unfold keys in tt) in
      subst (Records features linkage inputs) (ground (arith, f2)) (
        evidence_of-Records features linkage inputs m (ground arith) (ground arith) valid filed
          sorted (ground (arith, n)) (λ k. c k))
