-- ===== src/Model/Tokenize/Complete.antt =====
-- model.rs: the tokens of a text, where llama.cpp keeps to its documentation.
use llama_cpp_rs.Prelude.{
  ℕ, suc, ◌-◌, ◌≡◌, ◌<◌, ◌≤◌, ◌∙◌, Bool, List, [], none, some, length, take-length, ltb, arith,
  if◌then◌else◌, ℤ, i32_limit, Bool-cases, Option-cases, inl, inr,
}
use llama_cpp_rs.Prelude.Run.{ok, err, panic, Method}
use llama_cpp_rs.Prelude.Text.{Text}
use llama_cpp_rs.Session.{nul_position}
use llama_cpp_rs.Model.{AddBos, c_string, negated_usize}
use llama_cpp_rs.Model.Tokenize.{
  StringToTokenError, nul_error, c_int_conversion_error, Tokenizer, adds_bos, tokens_estimation,
  set_size, tokenize_again, tokenize_text, str_to_token,
}

-- What `llama_tokenize` returns for tokens: their number, and it writes them, where there is room, and
-- else the negated number.
unfoldable pub answer : List ℤ → ℕ → ℤ × List ℤ
answer tokens room =
    if ltb room (length tokens)
    then (ℤ.negsuc (length tokens - 1), [])
    else (ℤ.pos (length tokens), tokens)

-- Each text has tokens, fewer than an `i32` counts.
pub record Tokenizes (tokenizer : Tokenizer) : Type 0 where
  pub tokens : Text → Bool → List ℤ
  pub answers :
      (text : Text) (room : ℕ) (add_bos : Bool)
      → tokenizer text room add_bos ≡ answer (tokens text add_bos) room
  pub small : (text : Text) (add_bos : Bool) → length (tokens text add_bos) < i32_limit

module _ {S : Type 0} (tokenizer : Tokenizer) (law : Tokenizes tokenizer) where
  set_size-fits :
      (tokens : List ℤ) (room : ℕ) (s : S)
      → length tokens ≤ room
      → set_size (answer tokens room) s ≡ ok tokens s
  unfolding set_size answer
  set_size-fits tokens room s h = ground (arith, take-length tokens)

  tokenize_again-all :
      (text : Text) (add_bos : Bool) (room : ℕ) (s : S)
      → tokenize_again tokenizer text add_bos (tokenizer text room add_bos) s
        ≡ ok (law.tokens text add_bos) s
  unfolding tokenize_again negated_usize
  tokenize_again-all text add_bos room s =
      let tokens = law.tokens text add_bos in
      let first = law.answers text room add_bos in
      let again = law.answers text (length tokens) add_bos in
      let small = law.small text add_bos in
      elim (Bool-cases (ltb room (length tokens))) [
        | inr fits ↦
            let asked : tokenizer text room add_bos ≡ (ℤ.pos (length tokens), tokens) =
              first ∙ (unfold answer in ground (arith, fits)) in
            ground (arith, asked, first, set_size-fits tokens room s (ground (arith, fits)))
        | inl short ↦
            let asked : tokenizer text room add_bos ≡ (ℤ.negsuc (length tokens - 1), []) =
              first ∙ (unfold answer in ground (arith, short)) in
            let n : suc (length tokens - 1) ≡ length tokens = ground (arith, short) in
            rw asked (
              ground (arith, n, again, small, set_size-fits tokens (length tokens) s (omega arith)))
      ]

  -- What `str_to_token` is to return for a text: the error where it has a null byte, all of its tokens
  -- where an `i32` counts its bytes, and else an error, or a panic where an `i32` does not count the estimation.
  unfoldable pub expected : Text → Bool → Method S StringToTokenError (List ℤ)
  expected str add_bos s = elim (nul_position str) [
    | some i ↦ err (nul_error i) s
    | none ↦
        if ltb (length str) i32_limit
        then ok (law.tokens str add_bos) s
        else (if ltb (tokens_estimation (length str) add_bos) i32_limit
            then err c_int_conversion_error s
            else panic)
  ]

  -- Whatever the estimation, `str_to_token` gives all of the tokens of a text without a null
  -- byte, whose bytes an `i32` counts; and it gives each error for its cause.
  pub str_to_token-expected :
      (str : Text) (add_bos : AddBos) (s : S)
      → str_to_token tokenizer str add_bos s ≡ expected str (adds_bos add_bos) s
  unfolding str_to_token c_string expected tokenize_text
  str_to_token-expected str add_bos s =
      let all =
        tokenize_again-all str (adds_bos add_bos)
          (tokens_estimation (length str) (adds_bos add_bos)) s in
      let room : length str < i32_limit
          → tokens_estimation (length str) (adds_bos add_bos) < i32_limit =
        unfold tokens_estimation in λ h. ground arith in
      elim (Option-cases (nul_position str)) [
        | inr (i, e) ↦ ground (arith, e)
        | inl e ↦ ground (arith, e, all, room)
      ]
