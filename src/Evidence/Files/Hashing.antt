-- ===== src/Evidence/Files/Hashing.antt =====
-- build_evidence.rs: the hash of a file that nobody writes, and the fuel of the reading loop.
use llama_cpp_rs.Prelude.{
  ℕ, zero, suc, ◌+◌, ◌≡◌, refl, sym, ◌∙◌, ap, ◌<◌, true, [], ◌∷◌, ◌++◌, length, length-append,
  Option, none, some, arith, ◌⊎◌, inl, inr,
}
use llama_cpp_rs.Prelude.Run.{ok}
use llama_cpp_rs.Prelude.Text.{Text, text_eqb_iff}
use llama_cpp_rs.Evidence.{PathBuf}
use llama_cpp_rs.Evidence.Files.{
  hash_buffer_bytes, Metadata, same_time, platform_file_identity, same_file_snapshot, FileSystem,
  hash_rest, hash_open_file, hash_checked, hash_regular, hash_stable_file,
}
use mathlib.Core.Path.{subst}
use mathlib.Core.List.{append_assoc, append-nil}

-- A file that stays as it is: it opens, its metadata do not change, a read gives the next bytes, none
-- only at the end, and a seek goes back to the start. `At rest s` says what is left to read.
pub record Stays {S F : Type 0} (fs : FileSystem S F) (path : PathBuf) (contents : Text)
    : Type 1 where
  pub file : F
  pub info : Metadata
  pub At : Text → S → Type 0
  pub opens : (s : S) → (s' : S) × (fs.open_file path s ≡ ok file s') × At contents s'
  pub stats : (rest : Text) (s : S) → At rest s → fs.metadata file s ≡ ok info s
  pub reads :
      (rest : Text) (s : S)
      → At rest s
      → (chunk : Text) × (left : Text) × (s' : S) × (fs.read file hash_buffer_bytes s ≡ ok chunk s')
        × (rest ≡ chunk ++ left)
        × At left s'
        × (chunk ≡ [] → rest ≡ [])
  pub rewinds :
      (rest : Text) (s : S) → At rest s → (s' : S) × (fs.rewind file s ≡ ok tt s') × At contents s'

same_time_refl : (a : Option ℕ) → same_time a a ≡ true
unfolding same_time
same_time_refl none = refl
same_time_refl (some a) = ground arith

same_file_snapshot_refl : (m : Metadata) → same_file_snapshot m m ≡ true
unfolding same_file_snapshot
same_file_snapshot_refl m = ground (
  arith,
  same_time_refl m.modified,
  text_eqb_iff (platform_file_identity m) (platform_file_identity m),
)

List-cases : (xs : Text) → (xs ≡ []) ⊎ ((x : ℕ) × (r : Text) × (xs ≡ x ∷ r))
List-cases [] = inl refl
List-cases (x ∷ r) = inr (x, r, refl)

module _ {S F : Type 0} (fs : FileSystem S F) (sha256 : Text → Text) {path : PathBuf}
    {contents : Text} (law : Stays fs path contents) where
  hash_rest-step :
      (fuel : ℕ) (seen chunk : Text) (s s' : S)
      → fs.read law.file hash_buffer_bytes s ≡ ok chunk s'
      → (chunk ≡ [] → hash_rest fs sha256 (suc fuel) law.file seen s ≡ ok (sha256 seen) s')
        × ((c : ℕ) (cs : Text)
            → chunk ≡ c ∷ cs
            → hash_rest fs sha256 (suc fuel) law.file seen s
              ≡ hash_rest fs sha256 fuel law.file (seen ++ chunk) s')
  unfolding hash_rest
  hash_rest-step fuel seen chunk s s' e =
      (λ empty. ground (arith, e, empty), λ c cs full. ground (arith, e, full))

  hash_rest_lem :
      (fuel : ℕ) (seen rest : Text) (s : S)
      → law.At rest s
      → length rest < fuel
      → (s' : S) × (hash_rest fs sha256 fuel law.file seen s ≡ ok (sha256 (seen ++ rest)) s')
        × law.At [] s'
  hash_rest_lem zero seen rest s at h = absurd (omega arith)
  hash_rest_lem (suc fuel) seen rest s at h =
      let (chunk, left, s', e, r, at', stop) = law.reads rest s at in
      let (finished, more) = hash_rest-step fuel seen chunk s s' e in
      elim (List-cases chunk) [
        | inl empty ↦
            let gone : rest ≡ [] = stop empty in
            (
              s',
              finished empty ∙ ap (λ t. ok (sha256 t) s') (sym (rw gone (append-nil seen))),
              subst (λ l. law.At l s') (ground (arith, r, gone, empty)) at',
            )
        | inr (c, cs, full) ↦
            let n : length rest ≡ length chunk + length left =
              ap length r ∙ length-append chunk left in
            let k : length chunk ≡ suc (length cs) = ap length full in
            let (s'', run, at'') = hash_rest_lem fuel (seen ++ chunk) left s' at' (omega arith) in
            let bytes : (seen ++ chunk) ++ left ≡ seen ++ rest =
              append_assoc seen chunk left ∙ ap (λ t. seen ++ t) (sym r) in
            (s'', more c cs full ∙ run ∙ ap (λ t. ok (sha256 t) s'') bytes, at'')
      ]

  -- A regular file that nobody writes is fingerprinted with any fuel above its length: both readings
  -- go through all of its bytes, and the result is the length of its metadata and the hash of its contents.
  pub hash_stable_file-eq :
      (fuel : ℕ) (s : S)
      → length contents < fuel
      → law.info.is_file ≡ true
      → (s' : S) × (hash_stable_file fs sha256 fuel path s ≡ ok (law.info.len, sha256 contents) s')
  unfolding hash_stable_file hash_regular hash_open_file hash_checked
  hash_stable_file-eq fuel s h regular =
      let (s0, e0, a0) = law.opens s in
      let m0 = law.stats contents s0 a0 in
      let (s1, e1, a1) = hash_rest_lem fuel [] contents s0 a0 h in
      let (s2, e2, a2) = law.rewinds [] s1 a1 in
      let (s3, e3, a3) = hash_rest_lem fuel [] contents s2 a2 h in
      let m3 = law.stats [] s3 a3 in
      (
        s3,
        ground (
          arith,
          e0,
          m0,
          e1,
          e2,
          e3,
          m3,
          same_file_snapshot_refl law.info,
          text_eqb_iff (sha256 contents) (sha256 contents),
        ),
      )
