-- ===== src/Model/Pieces.antt =====
-- llama-cpp-2/src/model.rs: tokens to bytes and texts. What llama.cpp writes for a token is a parameter.
pub mod Whole
use llama_cpp_rs.Prelude.{
  ℕ, zero, suc, Bool, true, false, ◌&&◌, ◌||◌, not, List, [], ◌∷◌, ◌++◌, Option, none, some, length,
  take, drop, replicate, ltb, if◌then◌else◌, ℤ, int_eqb, i32_limit,
}
use llama_cpp_rs.Prelude.Run.{Run, ok, err, panic, fault, Method, ◌>>=◌, or_panic}
use llama_cpp_rs.Prelude.Text.{Text}
use llama_cpp_rs.Session.{nul_position}
use llama_cpp_rs.Model.{Special, is_tokenize, negated_usize}

pub data TokenToStringError : Type 0 where
  unknown_token_type from_utf8_error : TokenToStringError
  insufficient_buffer_space : ℤ → TokenToStringError

-- `llama_token_to_piece`: what it returns, and the bytes that it writes at the start of the buffer, for
-- a token, the length of the buffer, the spaces to strip, and whether special tokens are shown.
abbrev pub Pieces : Type 0
Pieces = ℤ → ℕ → ℕ → Bool → ℤ × Text

-- the buffer of `buffer_size` bytes `*` after the call
unfoldable pub buffer_after : ℕ → Text → Text
buffer_after buffer_size written = written ++ drop (length written) (replicate buffer_size b'*')

-- `CString::from_raw(buf)` and `truncate(len)`. The length of the string is read again from the buffer,
-- so a null byte in it is undefined, as is a write beyond it.
unfoldable pub taken_back : {S : Type 0} → ℕ → ℕ → Text → Method S TokenToStringError Text
taken_back buffer_size len written s =
    if ltb buffer_size (length written)
    then fault
    else elim (nul_position (buffer_after buffer_size written)) [
      | some i ↦ fault
      | none ↦ ok (take len (buffer_after buffer_size written)) s
    ]

-- the `match` on the size that llama.cpp returned
unfoldable pub sized : {S : Type 0} → ℕ → ℤ × Text → Method S TokenToStringError Text
sized buffer_size (ℤ.pos zero, written) s = err unknown_token_type s
sized buffer_size (ℤ.pos (suc n), written) s = taken_back buffer_size (suc n) written s
sized buffer_size (ℤ.negsuc n, written) s = err (insufficient_buffer_space (ℤ.negsuc n)) s

-- `lstrip.map_or(0, …)`
unfoldable pub strip_count : Option ℕ → ℕ
strip_count none = 0
strip_count (some n) = n

-- `String::from_utf8(bytes)?`
unfoldable pub from_utf8 : {S : Type 0} → (Text → Bool) → Text → Method S TokenToStringError Text
from_utf8 is_utf8 bytes s = if is_utf8 bytes then ok bytes s else err from_utf8_error s

module _ {S : Type 0} (pieces : Pieces) where
  unfoldable pub token_to_piece_bytes : ℤ → ℕ → Bool → Option ℕ → Method S TokenToStringError Text
  token_to_piece_bytes token buffer_size special lstrip s =
      if ltb buffer_size i32_limit
      then sized buffer_size (pieces token buffer_size (strip_count lstrip) special) s
      else panic

  -- the second call, with the size that the first one asked for
  unfoldable pub retried :
      ℤ → Bool → Option ℕ → Run S TokenToStringError Text → Run S TokenToStringError Text
  retried token special lstrip (ok bytes s) = ok bytes s
  retried token special lstrip (err (insufficient_buffer_space i) s) =
      (or_panic (negated_usize i) >>= λ n. token_to_piece_bytes token n special lstrip) s
  retried token special lstrip (err unknown_token_type s) = err unknown_token_type s
  retried token special lstrip (err from_utf8_error s) = err from_utf8_error s
  retried token special lstrip panic = panic
  retried token special lstrip fault = fault

  unfoldable pub token_to_bytes : ℤ → Special → Method S TokenToStringError Text
  token_to_bytes token special s =
      retried token (is_tokenize special) none
        (token_to_piece_bytes token 8 (is_tokenize special) none s)

  -- the loop of `tokens_to_str`
  unfoldable pub collect_pieces : Special → List ℤ → Method S TokenToStringError Text
  collect_pieces special [] s = ok [] s
  collect_pieces special (t ∷ ts) s =
      (token_to_piece_bytes t 8 (is_tokenize special) none >>= λ piece.
      collect_pieces special ts >>= λ rest s'. ok (piece ++ rest) s')
        s

  unfoldable pub tokens_to_str : (Text → Bool) → List ℤ → Special → Method S TokenToStringError Text
  tokens_to_str is_utf8 tokens special = collect_pieces special tokens >>= from_utf8 is_utf8

  unfoldable pub token_to_str_with_size :
      (Text → Bool) → ℤ → ℕ → Special → Method S TokenToStringError Text
  token_to_str_with_size is_utf8 token buffer_size special =
      token_to_piece_bytes token buffer_size (is_tokenize special) none >>= from_utf8 is_utf8

  -- `token_to_piece`, with the decoder, whose state is `S`, as a function
  unfoldable pub token_to_piece :
      (Text → S → Text × S) → ℤ → Bool → Option ℕ → Method S TokenToStringError Text
  token_to_piece decode token special lstrip =
      (λ s. retried token special lstrip (token_to_piece_bytes token 8 special lstrip s))
      >>= λ bytes s. let (piece, s') = decode bytes s in ok piece s'

-- The attributes of a token that `token_to_bytes_with_size` asks for.
pub record Attributes : Type 0 where
  pub is_empty : Bool
  pub unknown_byte_or_unused : Bool
  pub control : Bool

-- The tokens and attributes of a vocabulary, and its pieces.
pub record Vocab : Type 0 where
  pub nl : ℤ
  pub bos : ℤ
  pub eos : ℤ
  pub attributes : ℤ → Attributes
  pub pieces : Pieces

-- whether no bytes are given for the token
unfoldable pub is_silent : Vocab → ℤ → Bool
is_silent vocab token =
    (vocab.attributes token).is_empty
    || ((vocab.attributes token).unknown_byte_or_unused
        || ((vocab.attributes token).control
            && (int_eqb token vocab.bos || int_eqb token vocab.eos)))

unfoldable pub token_to_bytes_with_size :
    {S : Type 0} → Vocab → ℤ → ℕ → Special → Option ℕ → Method S TokenToStringError Text
token_to_bytes_with_size vocab token buffer_size special lstrip s =
    if int_eqb token vocab.nl
    then ok (10 ∷ []) s
    else (if is_silent vocab token
        then ok [] s
        else token_to_piece_bytes vocab.pieces token buffer_size (is_tokenize special) lstrip s)
