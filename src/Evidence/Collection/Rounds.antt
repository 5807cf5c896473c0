-- ===== src/Evidence/Collection/Rounds.antt =====
-- What a round of `collect` that returned tells: the input was valid and new, and the map has one more
-- entry, with a hash.
use llama_cpp_rs.Prelude.{ℕ, zero, suc, ◌≡◌, refl, ◌∙◌, false, not, List, [], ◌∷◌, ◌++◌, arith}
use llama_cpp_rs.Prelude.Run.{Run, ok, err, panic, fault, >>=-ok_inv, unless_inv}
use llama_cpp_rs.Prelude.Result
use llama_cpp_rs.Prelude.Text.{Text}
use llama_cpp_rs.Evidence.{
  PathBuf, ArtifactInput, ArtifactEvidence, EvidenceError, IoError, not_regular_file,
}
use llama_cpp_rs.Evidence.Names.{
  validate_logical_name, IsCanonical, validate_logical_name-IsCanonical,
}
use llama_cpp_rs.Evidence.Files.{
  FileSystem, Metadata, hash_rest, hash_open_file, hash_checked, hash_regular, hash_stable_file,
  hash_buffer_bytes,
}
use llama_cpp_rs.Evidence.Order.{insert, contains_key}
use llama_cpp_rs.Evidence.Collection.{
  World, ByName, checked, rerun_directive, fingerprinted, fingerprint, insert_evidence, collect_one,
}

module _ {S F : Type 0} (fs : FileSystem S F) (sha256 : Text → Text) where
  -- The text is a hash.
  abbrev pub IsHash : Text → Type 0
  IsHash h = (t : Text) × (h ≡ sha256 t)

  hash_rest-IsHash :
      (fuel : ℕ) (file : F) (seen : Text) (s : S) {s' : S} {h : Text}
      → hash_rest fs sha256 fuel file seen s ≡ ok h s'
      → IsHash h
  unfolding hash_rest
  hash_rest-IsHash zero file seen s e = cc
  hash_rest-IsHash (suc fuel) file seen s e =
      let (chunk, s1, r, f) = >>=-ok_inv (fs.read file hash_buffer_bytes) _ e in
      after s1 chunk (λ c cs. hash_rest-IsHash fuel file (seen ++ (c ∷ cs)) s1) f
    where
      after :
          (s1 : S) {s' : S} {h : Text} (chunk : Text)
          → ((c : ℕ) (cs : Text)
              → hash_rest fs sha256 fuel file (seen ++ (c ∷ cs)) s1 ≡ ok h s'
              → IsHash h)
          → (elim chunk [
            | [] ↦ ok (sha256 seen) s1
            | c ∷ cs ↦ hash_rest fs sha256 fuel file (seen ++ (c ∷ cs)) s1
          ])
            ≡ ok h s'
          → IsHash h
      after s1 [] rec e = (seen, ground arith)
      after s1 (c ∷ cs) rec e = rec c cs e

  hash_checked-IsHash :
      (before after : Metadata) (first second : Text) (s : S) {s' : S} {r : ℕ × Text}
      → IsHash first
      → hash_checked fs sha256 before after first second s ≡ ok r s'
      → IsHash r.1
  unfolding hash_checked
  hash_checked-IsHash before after first second s (t, p) e = (t, ground arith)

  hash_regular-IsHash :
      (fuel : ℕ) (file : F) (before : Metadata) (s : S) {s' : S} {r : ℕ × Text}
      → hash_regular fs sha256 fuel file before s ≡ ok r s'
      → IsHash r.1
  unfolding hash_regular hash_open_file
  hash_regular-IsHash fuel file before s e =
      let (first, s1, e1, f1) =
        >>=-ok_inv (hash_rest fs sha256 fuel file []) _
          (unless_inv (not before.is_file) not_regular_file s _ e).1 in
      let (_, s2, e2, f2) = >>=-ok_inv (fs.rewind file) _ f1 in
      let (second, s3, e3, f3) = >>=-ok_inv (hash_rest fs sha256 fuel file []) _ f2 in
      let (after, s4, e4, f4) = >>=-ok_inv (fs.metadata file) _ f3 in
      hash_checked-IsHash before after first second s4 (hash_rest-IsHash fuel file [] s e1) f4

  hash_stable_file-IsHash :
      (fuel : ℕ) (path : PathBuf) (s : S) {s' : S} {r : ℕ × Text}
      → hash_stable_file fs sha256 fuel path s ≡ ok r s'
      → IsHash r.1
  unfolding hash_stable_file
  hash_stable_file-IsHash fuel path s e =
      let (file, s1, e1, f1) = >>=-ok_inv (fs.open_file path) _ e in
      let (before, s2, e2, f2) = >>=-ok_inv (fs.metadata file) _ f1 in
      hash_regular-IsHash fuel file before s2 f2

module _ {S : Type 0} where
  pub checked-ok :
      {A : Type 0} (r : Result.Result EvidenceError A) (w : World S) {w' : World S} {a : A}
      → checked r w ≡ ok a w'
      → (r ≡ Result.ok a) × (w ≡ w')
  unfolding checked
  checked-ok (Result.ok a) w h = (ground arith, ground arith)
  checked-ok (Result.err e) w h = cc

module _ {S : Type 0} where
  pub fingerprinted-ok :
      (name : Text) (printed : List Text) (r : Run S IoError (ℕ × Text)) {w' : World S}
      {a : ArtifactEvidence}
      → fingerprinted name printed r ≡ ok a w'
      → (h : ℕ × Text) × (s : S) × (r ≡ ok h s) × (a.logical_name ≡ name) × (a.sha256 ≡ h.1)
  unfolding fingerprinted
  fingerprinted-ok name printed (ok (n, t) s) e = ((n, t), s, refl, ground arith, ground arith)
  fingerprinted-ok name printed (err x s) e = cc
  fingerprinted-ok name printed panic e = cc
  fingerprinted-ok name printed fault e = cc

module _ {S F : Type 0} (fs : FileSystem S F) (sha256 : Text → Text) (fuel : ℕ) where
  -- An entry of the map is filed under its name, which is canonical, and has a hash.
  abbrev pub Filed : Text × ArtifactEvidence → Type 0
  Filed (k, a) = (a.logical_name ≡ k) × IsCanonical k × IsHash fs sha256 a.sha256

  fingerprint-ok :
      (input : ArtifactInput) (w : World S) {w' : World S} {a : ArtifactEvidence}
      → fingerprint fs sha256 fuel input w ≡ ok a w'
      → (a.logical_name ≡ input.logical_name) × IsHash fs sha256 a.sha256
  unfolding fingerprint
  fingerprint-ok input w e =
      let (r, s, h, n, d) = fingerprinted-ok input.logical_name w.printed _ e in
      let (t, p) = hash_stable_file-IsHash fs sha256 fuel input.path w.files h in (n, (t, d ∙ p))

  pub insert_evidence-ok :
      (m : ByName) (input : ArtifactInput) (a : ArtifactEvidence) (w : World S) {w' : World S}
      {m' : ByName}
      → insert_evidence fs sha256 fuel m input a w ≡ ok m' w'
      → (contains_key input.logical_name m ≡ false) × (insert input.logical_name a m ≡ m')
  unfolding insert_evidence
  insert_evidence-ok m input a w e = ground arith

  -- A round that returned added one entry.
  pub collect_one-ok :
      (m : ByName) (input : ArtifactInput) (w : World S) {w' : World S} {m' : ByName}
      → collect_one fs sha256 fuel m input w ≡ ok m' w'
      → (a : ArtifactEvidence) × Filed (input.logical_name, a)
        × (contains_key input.logical_name m ≡ false)
        × (insert input.logical_name a m ≡ m')
  unfolding collect_one
  collect_one-ok m input w e =
      let (_, w1, e1, f1) = >>=-ok_inv (checked (validate_logical_name input.logical_name)) _ e in
      let (_, w2, e2, f2) = >>=-ok_inv (rerun_directive fs sha256 fuel input) _ f1 in
      let (a, w3, e3, f3) = >>=-ok_inv (fingerprint fs sha256 fuel input) _ f2 in
      let (valid, _) = checked-ok (validate_logical_name input.logical_name) w e1 in
      let (named, hashed) = fingerprint-ok input w2 e3 in
      let (fresh, added) = insert_evidence-ok m input a w3 f3 in
      (
        a,
        (named, validate_logical_name-IsCanonical input.logical_name (valid), hashed),
        fresh,
        added,
      )
