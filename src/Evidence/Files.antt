-- ===== src/Evidence/Files.antt =====
-- build_evidence.rs: `hash_stable_file` and `hash_open_file`. The file system is a parameter, over the
-- world `S` that it changes and in which others write; so is SHA-256, over the bytes of all updates.
pub mod Hashing
use llama_cpp_rs.Prelude.{
  ℕ, zero, suc, ◌+◌, ◌≡◌, refl, sym, ◌<◌, Bool, true, false, not, ◌&&◌, ◌||◌, List, [], ◌∷◌, ◌++◌,
  length, length-append, ◌==◌, ==_iff, if◌then◌else◌, Option, none, some, arith, Bool-cases, inl,
  inr,
}
use llama_cpp_rs.Prelude.Run.{Run, ok, err, panic, fault, Method, ◌>>=◌, ◌>>◌, >>=-eq_of_ok}
use llama_cpp_rs.Prelude.Text.{Text, text_eqb, text_eqb_iff}
use llama_cpp_rs.Evidence.{
  PathBuf, IoError, not_regular_file, changed_while_fingerprinted, unfinished,
}

abbrev pub hash_buffer_bytes : ℕ
hash_buffer_bytes = 1_048_576

-- `Metadata`; the identity is that of Unix: device, inode and the two parts of the change time.
pub record Metadata : Type 0 where
  pub is_file : Bool
  pub len : ℕ
  pub modified : Option ℕ
  pub dev : ℕ
  pub ino : ℕ
  pub ctime : ℕ
  pub ctime_nsec : ℕ

unfoldable pub same_time : Option ℕ → Option ℕ → Bool
same_time none none = true
same_time none (some b) = false
same_time (some a) none = false
same_time (some a) (some b) = a == b

unfoldable pub platform_file_identity : Metadata → List ℕ
platform_file_identity m = m.dev ∷ m.ino ∷ m.ctime ∷ m.ctime_nsec ∷ []

unfoldable pub same_file_snapshot : Metadata → Metadata → Bool
same_file_snapshot before after =
    (before.len == after.len)
    && (same_time before.modified after.modified
        && text_eqb (platform_file_identity before) (platform_file_identity after))

-- `File::open`, `metadata`, `read` into a buffer of the given size, and `seek` to the start, on the
-- handles `F`.
pub record FileSystem (S F : Type 0) : Type 0 where
  pub open_file : PathBuf → Method S IoError F
  pub metadata : F → Method S IoError Metadata
  pub read : F → ℕ → Method S IoError Text
  pub rewind : F → Method S IoError (Unit {0})

module _ {S F : Type 0} (fs : FileSystem S F) (sha256 : Text → Text) where
  -- What is left of the loop after a `read`; `seen` are the bytes of the updates.
  unfoldable pub hash_rest : ℕ → F → Text → Method S IoError Text
  hash_rest zero file seen s = err unfinished s
  hash_rest (suc fuel) file seen s =
      (fs.read file hash_buffer_bytes >>= λ chunk s'. elim chunk [
        | [] ↦ ok (sha256 seen) s'
        | c ∷ cs ↦ hash_rest fuel file (seen ++ (c ∷ cs)) s'
      ])
        s

  unfoldable pub hash_open_file : ℕ → F → Method S IoError Text
  hash_open_file fuel file = hash_rest fuel file []

  -- The checks after the second reading.
  unfoldable pub hash_checked :
      (before after : Metadata) (first second : Text) → Method S IoError (ℕ × Text)
  hash_checked before after first second s =
      if not (same_file_snapshot before after) || not (text_eqb first second)
      then err changed_while_fingerprinted s
      else ok (after.len, first) s

  unfoldable pub hash_regular : ℕ → F → Metadata → Method S IoError (ℕ × Text)
  hash_regular fuel file before s =
      if not before.is_file
      then err not_regular_file s
      else (hash_open_file fuel file >>= λ first.
            fs.rewind file
            >> (hash_open_file fuel file >>= λ second.
                fs.metadata file >>= λ after. hash_checked before after first second))
          s

  unfoldable pub hash_stable_file : ℕ → PathBuf → Method S IoError (ℕ × Text)
  hash_stable_file fuel path =
      fs.open_file path >>= λ file. fs.metadata file >>= λ before. hash_regular fuel file before
