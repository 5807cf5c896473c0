-- ===== src/Evidence/Collection/Reordered.antt =====
-- build_evidence.rs: `collect` on its inputs in another order.
use mathlib.Core.List.{Permᴰ}
use mathlib.Core.Path.{subst}
use llama_cpp_rs.Prelude.{
  ℕ, suc, ◌≡◌, refl, sym, ap, ◌∙◌, false, List, [], ◌∷◌, ◌++◌, length, ltb, ◌==◌, arith, Bool-cases,
  inl, inr,
}
use llama_cpp_rs.Prelude.Run.{ok, ◌>>=◌, >>=-ok_inv, unless_inv, >>=-eq_of_ok}
use llama_cpp_rs.Prelude.Text.{Text, codes, text_eqb, text_eqb_iff}
use llama_cpp_rs.Evidence.{
  PathBuf, ArtifactInput, ArtifactEvidence, BuildEvidence, LinkageEvidence, no_artifacts,
  too_many_artifacts, max_artifacts,
}
use llama_cpp_rs.Evidence.Names.{validate_logical_name, cargo_directive_path}
use llama_cpp_rs.Evidence.Features.{validate_features}
use llama_cpp_rs.Evidence.Files.{FileSystem, hash_stable_file}
use llama_cpp_rs.Evidence.Order.{insert, contains_key, insert_comm, contains_key-insert}
use llama_cpp_rs.Evidence.Collection.{
  World, ByName, checked, print_rerun, rerun_directive, fingerprinted, fingerprint, insert_evidence,
  collect_one, collect_all, collect,
}
use llama_cpp_rs.Evidence.Collection.Rounds.{fingerprinted-ok, insert_evidence-ok, checked-ok}

module _ {S F : Type 0} (fs : FileSystem S F) (sha256 : Text → Text) (fuel : ℕ) where
  -- Nobody writes the files: what can be hashed in one world is hashed to the same in every other.
  abbrev pub Unwritten : Type 0
  Unwritten =
      (path : PathBuf) (s t s' : S) (r : ℕ × Text)
      → hash_stable_file fs sha256 fuel path s ≡ ok r s'
      → (t' : S) × (hash_stable_file fs sha256 fuel path t ≡ ok r t')

  rerun_directive-again :
      (input : ArtifactInput) (w v : World S) {w' : World S}
      → rerun_directive fs sha256 fuel input w ≡ ok tt w'
      → (v' : World S) × (rerun_directive fs sha256 fuel input v ≡ ok tt v')
  unfolding rerun_directive
  rerun_directive-again input w v {w'} h = elim (Bool-cases input.external) [
    | inr e ↦ (v, ground (arith, e))
    | inl e ↦
        let run : (checked (cargo_directive_path input.path) >>= print_rerun) w ≡ ok tt w' =
          ground (arith, h, e) in
        let (path, w1, e1, f1) =
          >>=-ok_inv (checked (cargo_directive_path input.path)) print_rerun run in
        let (found, _) = checked-ok (cargo_directive_path input.path) w e1 in
        (
          record {
            files = v.files;
            printed = v.printed ++ ((codes "cargo:rerun-if-changed=" ++ path) ∷ []);
          },
          unfold checked print_rerun in ground (arith, e, found),
        )
  ]

  module _ (unwritten : Unwritten) where
    fingerprint-again :
        (input : ArtifactInput) (w v : World S) {w' : World S} {a : ArtifactEvidence}
        → fingerprint fs sha256 fuel input w ≡ ok a w'
        → (v' : World S) × (fingerprint fs sha256 fuel input v ≡ ok a v')
    unfolding fingerprint fingerprinted
    fingerprint-again input w v h =
        let ((n, t), s, e, named, hashed) = fingerprinted-ok input.logical_name w.printed _ h in
        let (t', e') = unwritten input.path w.files v.files s (n, t) e in
        (record { files = t'; printed = v.printed }, ground (arith, e', e))

    -- A round that returned returns on any other map without the name, with the same entry.
    collect_one-again :
        (m : ByName) (input : ArtifactInput) (w : World S) {w' : World S} {m' : ByName}
        → collect_one fs sha256 fuel m input w ≡ ok m' w'
        → (a : ArtifactEvidence) × (contains_key input.logical_name m ≡ false)
          × (insert input.logical_name a m ≡ m')
          × ((n : ByName) (v : World S)
              → contains_key input.logical_name n ≡ false
              → (v' : World S) × (collect_one fs sha256 fuel n input v
                  ≡ ok (insert input.logical_name a n) v'))
    unfolding collect_one
    collect_one-again m input w h =
        let (_, w1, e1, f1) = >>=-ok_inv (checked (validate_logical_name input.logical_name)) _ h in
        let (_, w2, e2, f2) = >>=-ok_inv (rerun_directive fs sha256 fuel input) _ f1 in
        let (a, w3, e3, f3) = >>=-ok_inv (fingerprint fs sha256 fuel input) _ f2 in
        let (valid, _) = checked-ok (validate_logical_name input.logical_name) w e1 in
        let (fresh, added) = insert_evidence-ok fs sha256 fuel m input a w3 f3 in
        (
          a,
          fresh,
          added,
          λ n v new.
              let (v1, g1) = rerun_directive-again input w1 v e2 in
              let (v2, g2) = fingerprint-again input w2 v1 e3 in
              (v2, unfold checked insert_evidence in ground (arith, valid, g1, g2, new)),
        )

    collect_all-step :
        (m n : ByName) (input : ArtifactInput) (inputs : List ArtifactInput) (v v' : World S)
        → collect_one fs sha256 fuel m input v ≡ ok n v'
        → collect_all fs sha256 fuel m (input ∷ inputs) v ≡ collect_all fs sha256 fuel n inputs v'
    unfolding collect_all
    collect_all-step m n input inputs v v' e = >>=-eq_of_ok (collect_one fs sha256 fuel m input) _ e

    collect_all-inv :
        (m : ByName) (input : ArtifactInput) (inputs : List ArtifactInput) (w : World S)
        {w' : World S} {m' : ByName}
        → collect_all fs sha256 fuel m (input ∷ inputs) w ≡ ok m' w'
        → (n : ByName) × (u : World S) × (collect_one fs sha256 fuel m input w ≡ ok n u)
          × (collect_all fs sha256 fuel n inputs u ≡ ok m' w')
    unfolding collect_all
    collect_all-inv m input inputs w h = >>=-ok_inv (collect_one fs sha256 fuel m input) _ h

    collect_all-again :
        (m : ByName) (inputs : List ArtifactInput) (w v : World S) {w' : World S} {m' : ByName}
        → collect_all fs sha256 fuel m inputs w ≡ ok m' w'
        → (v' : World S) × (collect_all fs sha256 fuel m inputs v ≡ ok m' v')
    collect_all-again m [] w v h = (v, unfold collect_all in ground arith)
    collect_all-again m (x ∷ xs) w v h =
        let (n, w1, e1, f1) = collect_all-inv m x xs w h in
        let (a, fresh, added, again) = collect_one-again m x w e1 in
        let (v1, g1) = again m v fresh in
        let (v2, g2) = collect_all-again n xs w1 v1 f1 in
        (v2, collect_all-step m n x xs v v1 (g1 ∙ ap (λ l. ok l v1) added) ∙ g2)

    collect_all-swap :
        (m : ByName) (x y : ArtifactInput) (xs : List ArtifactInput) (w v : World S) {w' : World S}
        {m' : ByName}
        → collect_all fs sha256 fuel m (x ∷ y ∷ xs) w ≡ ok m' w'
        → (v' : World S) × (collect_all fs sha256 fuel m (y ∷ x ∷ xs) v ≡ ok m' v')
    collect_all-swap m x y xs w v h =
        let (n, w1, e1, f1) = collect_all-inv m x (y ∷ xs) w h in
        let (k, w2, e2, f2) = collect_all-inv n y xs w1 f1 in
        let (a, new_x, added_x, again_x) = collect_one-again m x w e1 in
        let (b, new_y, added_y, again_y) = collect_one-again n y w1 e2 in
        let in_n = contains_key-insert y.logical_name x.logical_name a m in
        let in_y = contains_key-insert x.logical_name y.logical_name b m in
        let apart : text_eqb y.logical_name x.logical_name ≡ false =
          ground (arith, in_n, new_y, added_x) in
        let (v1, g1) = again_y m v (ground (arith, in_n, new_y, added_x)) in
        let (v2, g2) = again_x (insert y.logical_name b m) v1 (
          ground (
            arith,
            in_y,
            new_x,
            apart,
            text_eqb_iff x.logical_name y.logical_name,
            text_eqb_iff y.logical_name x.logical_name,
          )) in
        let same : insert x.logical_name a (insert y.logical_name b m) ≡ k =
          sym (insert_comm y.logical_name x.logical_name b a m apart)
          ∙ ap (insert y.logical_name b) added_x
          ∙ added_y in
        let (v3, g3) = collect_all-again k xs w2 v2 f2 in
        (
          v3,
          collect_all-step m (insert y.logical_name b m) y (x ∷ xs) v v1 g1
              ∙ collect_all-step (insert y.logical_name b m) k x xs v1 v2
                  (g2 ∙ ap (λ l. ok l v2) same)
              ∙ g3,
        )

    collect_all-perm :
        {xs ys : List ArtifactInput}
        → Permᴰ xs ys
        → (m : ByName) (w v : World S) {w' : World S} {m' : ByName}
        → collect_all fs sha256 fuel m xs w ≡ ok m' w'
        → (v' : World S) × (collect_all fs sha256 fuel m ys v ≡ ok m' v')
    collect_all-perm Permᴰ.nil m w v h = (v, unfold collect_all in ground arith)
    collect_all-perm (Permᴰ.cons {a = x} {b = y} {l₁ = xs} {l₂ = ys} e d) m w v {w'} {m'} h =
        let (n, w1, e1, f1) = collect_all-inv m x xs w h in
        let (a, fresh, added, again) = collect_one-again m x w e1 in
        let (v1, g1) = again m v fresh in
        let (v2, g2) = collect_all-perm d n w1 v1 f1 in
        (
          v2,
          subst (λ z. collect_all fs sha256 fuel m (z ∷ ys) v ≡ ok m' v2) e
              (collect_all-step m n x ys v v1 (g1 ∙ ap (λ l. ok l v1) added) ∙ g2),
        )
    collect_all-perm (Permᴰ.swap {a = x} {b = y} {a' = y'} {b' = x'} {l = xs} e e') m w v {w'} {m'}
          h =
        let (v', g) = collect_all-swap m x y xs w v h in
        (
          v',
          subst (λ z. collect_all fs sha256 fuel m (z ∷ x' ∷ xs) v ≡ ok m' v') e'
              (subst (λ z. collect_all fs sha256 fuel m (y ∷ z ∷ xs) v ≡ ok m' v') e g),
        )
    collect_all-perm (Permᴰ.trans d d') m w v h =
        let (w1, g) = collect_all-perm d m w v h in collect_all-perm d' m v v g

    length-perm : {xs ys : List ArtifactInput} → Permᴰ xs ys → length xs ≡ length ys
    length-perm Permᴰ.nil = refl
    length-perm (Permᴰ.cons e d) = ap suc (length-perm d)
    length-perm (Permᴰ.swap e e') = refl
    length-perm (Permᴰ.trans d d') = length-perm d ∙ length-perm d'

    -- Where nobody writes the files, the order of the inputs does not matter: when `collect`
    -- returns an evidence, it returns the same one for every reordering of the inputs, in every world.
    pub collect-perm :
        (features : List Text) (linkage : LinkageEvidence) {inputs reordered : List ArtifactInput}
        → Permᴰ inputs reordered
        → (w v : World S) {w' : World S} {e : BuildEvidence}
        → collect fs sha256 fuel features linkage inputs w ≡ ok e w'
        → (v' : World S) × (collect fs sha256 fuel features linkage reordered v ≡ ok e v')
    unfolding collect
    collect-perm features linkage {inputs} {reordered} d w v h =
        let (some, h1) = unless_inv (length inputs == 0) no_artifacts w _ h in
        let (few, h2) =
          unless_inv (ltb max_artifacts (length inputs)) (too_many_artifacts (length inputs)) w _
            h1 in
        let (_, w1, e1, f1) = >>=-ok_inv (checked (validate_features features)) _ h2 in
        let (m, w2, e2, f2) = >>=-ok_inv (collect_all fs sha256 fuel [] inputs) _ f1 in
        let (valid, _) = checked-ok (validate_features features) w e1 in
        let (v2, g2) = collect_all-perm d [] w1 v e2 in
        (v2, unfold checked in ground (arith, length-perm d, some, few, valid, g2, f2))
