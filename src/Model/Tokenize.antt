-- ===== src/Model/Tokenize.antt =====
-- llama-cpp-2/src/model.rs: `str_to_token`. What llama.cpp makes of a text is a parameter.
pub mod Complete
use llama_cpp_rs.Prelude.{
  ℕ, zero, suc, ◌+◌, ◌/◌, Bool, true, false, List, [], ◌∷◌, Option, none, some, length, take, leb,
  ltb, if◌then◌else◌, ℤ, i32_limit,
}
use llama_cpp_rs.Prelude.Run.{Run, ok, err, panic, fault, Method, ◌>>=◌, ◌>>◌, or_panic}
use llama_cpp_rs.Prelude.Text.{Text}
use llama_cpp_rs.Prelude.Result
use llama_cpp_rs.Model.{AddBos, always, never, c_string, negated_usize}

pub data StringToTokenError : Type 0 where
  nul_error : ℕ → StringToTokenError
  c_int_conversion_error : StringToTokenError

-- `llama_tokenize`: what it returns and the tokens that it writes, for a text, the room of the buffer and
-- whether a BOS is added.
abbrev pub Tokenizer : Type 0
Tokenizer = Text → ℕ → Bool → ℤ × List ℤ

unfoldable pub adds_bos : AddBos → Bool
adds_bos always = true
adds_bos never = false

-- `std::cmp::max(8, (str.len() / 2) + usize::from(add_bos))`
unfoldable pub tokens_estimation : ℕ → Bool → ℕ
tokens_estimation len add_bos =
    let n = len / 2 + (if add_bos then 1 else 0) in if leb n 8 then 8 else n

-- `usize::try_from(size).expect(…)` and `buffer.set_len(size)`, which is undefined where a token was not
-- written
unfoldable pub set_size : {S : Type 0} → ℤ × List ℤ → Method S StringToTokenError (List ℤ)
set_size (ℤ.negsuc n, written) s = panic
set_size (ℤ.pos n, written) s = if leb n (length written) then ok (take n written) s else fault

module _ {S : Type 0} (tokenizer : Tokenizer) where
  -- the second call, where the first one gives a negative size
  unfoldable pub tokenize_again : Text → Bool → ℤ × List ℤ → Method S StringToTokenError (List ℤ)
  tokenize_again text add_bos (ℤ.pos n, written) = set_size (ℤ.pos n, written)
  tokenize_again text add_bos (ℤ.negsuc n, written) =
      or_panic (negated_usize (ℤ.negsuc n)) >>= λ room. set_size (tokenizer text room add_bos)

  -- from the C string on; the capacity of the buffer is the estimation
  unfoldable pub tokenize_text : Text → Bool → Method S StringToTokenError (List ℤ)
  tokenize_text text add_bos s =
      let room = tokens_estimation (length text) add_bos in
      if ltb room i32_limit
      then (if ltb (length text) i32_limit
          then tokenize_again text add_bos (tokenizer text room add_bos) s
          else err c_int_conversion_error s)
      else panic

  unfoldable pub str_to_token : Text → AddBos → Method S StringToTokenError (List ℤ)
  str_to_token str add_bos s = elim (c_string str) [
    | Result.ok text ↦ tokenize_text text (adds_bos add_bos) s
    | Result.err i ↦ err (nul_error i) s
  ]
