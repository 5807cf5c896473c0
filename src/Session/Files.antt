-- ===== src/Session/Files.antt =====
-- The state files: paths that no C string holds, the bounds of a load, and the round trip of a save.
use mathlib.Core.Path.{subst}
use llama_cpp_rs.Prelude.{
  ℕ, ◌≤◌, ◌≡◌, ◌≢◌, refl, sym, ◌∙◌, ◌⊎◌, inl, inr, Bool, true, false, not, none, some, List, length,
  take, leb, ltb, ◌==◌, arith, ℤ, Option-cases, if_rule, length-take, take-length,
}
use llama_cpp_rs.Prelude.Run.{Run, ok, err, panic, fault, Method}
use llama_cpp_rs.Session.{
  PathBuf, nul_position, with_c_string, Loaded, set_len, saved, loaded, seq_loaded, FileApi,
  save_session_file, load_session_file, state_save_file, state_load_file, state_seq_save_file,
  state_seq_load_file,
}

-- The path is no text, or a null byte stands in it.
abbrev pub Unusable : PathBuf → Type 0
Unusable path =
    (path.to_str ≡ none)
    ⊎ ((bytes : List ℕ) × (i : ℕ) × (path.to_str ≡ some bytes) × (nul_position bytes ≡ some i))

-- The path is text without a null byte, of these bytes.
abbrev pub Usable : PathBuf → List ℕ → Type 0
Usable path bytes = (path.to_str ≡ some bytes) × (nul_position bytes ≡ none)

-- The call is refused, and the world is the one before it.
abbrev pub Refused : {S E A : Type 0} → S → Run S E A → Type 0
Refused {E = E} s r = (e : E) × (r ≡ err e s)

module _ {S E A : Type 0} (str : PathBuf → E) (nul : ℕ → E) (path : PathBuf)
    (f : List ℕ → Method S E A) (s : S) where
  with_c_string-Refused : Unusable path → Refused s (with_c_string str nul path f s)
  unfolding with_c_string
  with_c_string-Refused (inl e) = (str path, ground (arith, e))
  with_c_string-Refused (inr (bytes, i, e, h)) = (nul i, ground (arith, e, h))

  with_c_string-Usable :
      (bytes : List ℕ) → Usable path bytes → with_c_string str nul path f s ≡ f bytes s
  unfolding with_c_string
  with_c_string-Usable bytes (e, h) = ground (arith, e, h)

  -- A property of every refusal and of every run on a C string holds of the call.
  with_c_string_rule :
      (P : Run S E A → Type 0)
      → ((e : E) → P (err e s))
      → ((bytes : List ℕ) → P (f bytes s))
      → P (with_c_string str nul path f s)
  unfolding with_c_string
  with_c_string_rule P p q = elim (Option-cases path.to_str) [
    | inl e ↦ subst P (sym (with_c_string-Refused (inl e)).1) (p (with_c_string-Refused (inl e)).0)
    | inr (bytes, e) ↦ elim (Option-cases (nul_position bytes)) [
      | inl h ↦ subst P (sym (with_c_string-Usable bytes (e, h))) (q bytes)
      | inr (i, h) ↦
          subst P (sym (with_c_string-Refused (inr (bytes, i, e, h))).1)
            (p (with_c_string-Refused (inr (bytes, i, e, h))).0)
    ]
  ]

-- Each of the six operations on files refuses a path that no C string holds, before it calls llama.cpp.
pub Unusable-Refused :
    {S : Type 0} (files : FileApi S) (path : PathBuf) (tokens : List ℤ) (max_tokens : ℕ) (seq : ℤ)
    (s : S)
    → Unusable path
    → Refused s (save_session_file files path tokens s)
      × Refused s (load_session_file files path max_tokens s)
      × Refused s (state_save_file files path tokens s)
      × Refused s (state_load_file files path max_tokens s)
      × Refused s (state_seq_save_file files path seq tokens s)
      × Refused s (state_seq_load_file files path seq max_tokens s)
unfolding save_session_file load_session_file state_save_file state_load_file state_seq_save_file
    state_seq_load_file
Unusable-Refused files path tokens max_tokens seq s bad = (
  with_c_string-Refused _ _ path _ s bad,
  with_c_string-Refused _ _ path _ s bad,
  with_c_string-Refused _ _ path _ s bad,
  with_c_string-Refused _ _ path _ s bad,
  with_c_string-Refused _ _ path _ s bad,
  with_c_string-Refused _ _ path _ s bad,
)

-- llama.cpp's promise on a load that succeeds: the tokens that it counts, if the buffer holds them, have
-- been written.
abbrev pub Writes : {S : Type 0} → ℕ → Loaded S → Type 0
Writes max_tokens r = r.read ≢ 0 → r.n_out ≤ max_tokens → r.n_out ≤ length r.written

pub record WritesAll {S : Type 0} (files : FileApi S) : Type 0 where
  pub session : (bytes : List ℕ) (n : ℕ) (s : S) → Writes n (files.load_session bytes n s)
  pub state : (bytes : List ℕ) (n : ℕ) (s : S) → Writes n (files.load bytes n s)
  pub sequence :
      (bytes : List ℕ) (seq : ℤ) (n : ℕ) (s : S) → Writes n (files.seq_load bytes seq n s)

-- The run ends with at most `max_tokens` tokens or an error: it neither panics nor reads a token that
-- was not written.
abbrev pub Bounded : {S E A : Type 0} → (A → List ℤ) → ℕ → Run S E A → Type 0
Bounded tokens max_tokens (ok a s) = length (tokens a) ≤ max_tokens
Bounded tokens max_tokens (err e s) = Unit
Bounded tokens max_tokens panic = ⊥
Bounded tokens max_tokens fault = ⊥

module _ {S : Type 0} (max_tokens : ℕ) (r : Loaded S) (law : Writes max_tokens r) where
  set_len-Bounded :
      (E : Type 0) {A : Type 0} (f : List ℤ → A) (tokens : A → List ℤ)
      → ((xs : List ℤ) → tokens (f xs) ≡ xs)
      → r.read ≢ 0
      → ltb max_tokens r.n_out ≡ false
      → Bounded {E = E} tokens max_tokens (set_len r.n_out r.written f r.world)
  unfolding set_len
  set_len-Bounded E f tokens same read short =
      if_rule (Bounded tokens max_tokens) (leb r.n_out (length r.written)) _ _
        (λ e.
          subst (λ (xs : List ℤ). length xs ≤ max_tokens) (sym (same (take r.n_out r.written)))
            (ground (arith, length-take r.n_out r.written)))
        λ e. elim (absurd_of (law read (ground arith)) e) [ ]
    where
      absurd_of : r.n_out ≤ length r.written → leb r.n_out (length r.written) ≡ false → ⊥
      absurd_of h e = ground arith

  loaded-Bounded : Bounded (λ (xs : List ℤ). xs) max_tokens (loaded max_tokens r)
  unfolding loaded
  loaded-Bounded =
      if_rule (Bounded (λ (xs : List ℤ). xs) max_tokens) (not (r.read == 0)) _ _
        (λ e.
          if_rule (Bounded (λ (xs : List ℤ). xs) max_tokens) (ltb max_tokens r.n_out) _ _ (λ _. tt)
            λ short. set_len-Bounded _ (λ xs. xs) (λ xs. xs) (λ xs. refl) (ground arith) short)
        λ e. tt

  seq_loaded-Bounded : Bounded (λ (p : List ℤ × ℕ). p.0) max_tokens (seq_loaded max_tokens r)
  unfolding seq_loaded
  seq_loaded-Bounded =
      if_rule (Bounded (λ (p : List ℤ × ℕ). p.0) max_tokens) (r.read == 0) _ _ (λ e. tt)
        λ e.
          if_rule (Bounded (λ (p : List ℤ × ℕ). p.0) max_tokens) (ltb max_tokens r.n_out) _ _
            (λ _. tt)
            λ short.
              set_len-Bounded _ (λ xs. (xs, r.read)) (λ p. p.0) (λ xs. refl) (ground arith) short

-- Where llama.cpp writes the tokens that it counts, each of the three loads returns at most `max_tokens`
-- tokens, all of them written, or an error.
loads-Bounded :
    {S : Type 0} (files : FileApi S) (path : PathBuf) (max_tokens : ℕ) (seq : ℤ) (s : S)
    → WritesAll files
    → Bounded (λ (xs : List ℤ). xs) max_tokens (load_session_file files path max_tokens s)
      × Bounded (λ (xs : List ℤ). xs) max_tokens (state_load_file files path max_tokens s)
      × Bounded
          (λ (p : List ℤ × ℕ). p.0)
          max_tokens
          (state_seq_load_file files path seq max_tokens s)
unfolding load_session_file state_load_file state_seq_load_file
loads-Bounded files path max_tokens seq s law = (
  with_c_string_rule _ _ path _ s (Bounded (λ (xs : List ℤ). xs) max_tokens) (λ e. tt)
      λ bytes.
        loaded-Bounded max_tokens (files.load_session bytes max_tokens s)
          (law.session bytes max_tokens s),
  with_c_string_rule _ _ path _ s (Bounded (λ (xs : List ℤ). xs) max_tokens) (λ e. tt)
      λ bytes.
        loaded-Bounded max_tokens (files.load bytes max_tokens s) (law.state bytes max_tokens s),
  with_c_string_rule _ _ path _ s (Bounded (λ (p : List ℤ × ℕ). p.0) max_tokens) (λ e. tt)
      λ bytes.
        seq_loaded-Bounded max_tokens (files.seq_load bytes seq max_tokens s)
          (law.sequence bytes seq max_tokens s),
)

-- llama.cpp's promise on a file that it saved: a load with a buffer that is large enough counts and
-- writes the tokens that were saved.
pub record Keeps {S : Type 0} (files : FileApi S) : Type 0 where
  pub keeps :
      (bytes : List ℕ) (tokens : List ℤ) (n : ℕ) (s s' : S)
      → files.save bytes tokens s ≡ (true, s')
      → length tokens ≤ n
      → ((files.load bytes n s').read ≢ 0)
        × ((files.load bytes n s').n_out ≡ length tokens)
        × ((files.load bytes n s').written ≡ tokens)

module _ {S : Type 0} (files : FileApi S) (tokens : List ℤ) (max_tokens : ℕ) where
  loaded_all :
      (r : Loaded S)
      → length tokens ≤ max_tokens
      → r.read ≢ 0
      → r.n_out ≡ length tokens
      → r.written ≡ tokens
      → loaded max_tokens r ≡ ok tokens r.world
  unfolding loaded set_len
  loaded_all r small read count written = ground (arith, read, count, written, take-length tokens)

  saved_inv : (r : Bool × S) (s' : S) → saved r ≡ ok tt s' → r ≡ (true, s')
  unfolding saved
  saved_inv (true, s) s' h = ground arith
  saved_inv (false, s) s' h = ground arith

  -- Where llama.cpp loads the tokens that it saved: what `state_save_file` saved without an error, `state_load_file` returns from the same path, if
  -- `max_tokens` is not less than the number of tokens.
  pub state_save_file-load :
      (path : PathBuf) (bytes : List ℕ) (s s' : S)
      → Keeps files
      → Usable path bytes
      → length tokens ≤ max_tokens
      → state_save_file files path tokens s ≡ ok tt s'
      → state_load_file files path max_tokens s' ≡ ok tokens (files.load bytes max_tokens s').world
  unfolding state_save_file state_load_file
  state_save_file-load path bytes s s' law usable small done =
      let ran = sym (with_c_string-Usable _ _ path _ s bytes usable) ∙ done in
      let (read, count, written) =
        law.keeps bytes tokens max_tokens s s' (saved_inv (files.save bytes tokens s) s' ran)
          small in
      with_c_string-Usable _ _ path _ s' bytes usable
      ∙ loaded_all (files.load bytes max_tokens s') small read count written
