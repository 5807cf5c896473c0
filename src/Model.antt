-- ===== src/Model.antt =====
-- llama-cpp-2/src/model.rs: the types of the model's wrapper, the conversions between them and
-- llama.cpp's numbers, and C strings.
pub mod Pieces
pub mod Tokenize
pub mod Metadata
pub mod Chat
pub mod Loading
use llama_cpp_rs.Prelude.{
  ℕ, zero, suc, Bool, true, false, List, Option, none, some, ltb, ◌==◌, if◌then◌else◌, ℤ, int_eqb,
  i32_limit, to_usize, map,
}
use llama_cpp_rs.Prelude.Result.{Result, ok, err, ◌>>=◌}
use llama_cpp_rs.Prelude.Run
use llama_cpp_rs.Prelude.Text.{Text}
use llama_cpp_rs.Session.{nul_position}

-- `CString::new`: the text, or the position of its first null byte
unfoldable pub c_string : Text → Result ℕ Text
c_string text = elim (nul_position text) [ none ↦ ok text | some i ↦ err i ]

pub record LlamaChatTemplate : Type 0 where
  pub text : Text

-- `LlamaChatTemplate::new`
unfoldable pub template_new : Text → Result ℕ LlamaChatTemplate
template_new template = c_string template >>= λ text. ok (record { text = text })

pub record LlamaChatMessage : Type 0 where
  pub role : Text
  pub content : Text

-- `LlamaChatMessage::new`
unfoldable pub message_new : Text → Text → Result ℕ LlamaChatMessage
message_new role content = c_string role >>= λ role'.
    c_string content >>= λ content'. ok (record { role = role'; content = content' })

pub data RopeType : Type 0 where
  norm neo_x m_rope vision : RopeType

-- llama.cpp's numbers of the rope and vocabulary types
pub record Constants : Type 0 where
  pub rope_norm : ℤ
  pub rope_neox : ℤ
  pub rope_mrope : ℤ
  pub rope_vision : ℤ
  pub vocab_bpe : ℕ
  pub vocab_spm : ℕ

-- `rope_type`; no rope and an unknown type are both none
unfoldable pub rope_type : Constants → ℤ → Option RopeType
rope_type c n =
    if int_eqb n c.rope_norm
    then some norm
    else (if int_eqb n c.rope_neox
        then some neo_x
        else (if int_eqb n c.rope_mrope
            then some m_rope
            else (if int_eqb n c.rope_vision then some vision else none)))

pub data AddBos : Type 0 where
  always never : AddBos

pub data Special : Type 0 where
  tokenize plaintext : Special

-- `matches!(special, Special::Tokenize)`
unfoldable pub is_tokenize : Special → Bool
is_tokenize tokenize = true
is_tokenize plaintext = false

pub data VocabType : Type 0 where
  bpe spm : VocabType

pub data LlamaTokenTypeFromIntError : Type 0 where
  unknown_value : ℕ → LlamaTokenTypeFromIntError

-- `VocabType::try_from`
unfoldable pub vocab_type_try_from : Constants → ℕ → Result LlamaTokenTypeFromIntError VocabType
vocab_type_try_from c value =
    if value == c.vocab_bpe
    then ok bpe
    else (if value == c.vocab_spm then ok spm else err (unknown_value value))

-- `u32::try_from(n).expect(…)`, of `n_ctx_train`, `n_layer`, `n_head` and `n_head_kv`; none is the panic
unfoldable pub n_ctx_train : ℤ → Option ℕ
n_ctx_train n = to_usize n

-- `-n` of an `i32`, then the conversion to `usize`: none where one of them panics
unfoldable pub negated_usize : ℤ → Option ℕ
negated_usize (ℤ.pos zero) = some 0
negated_usize (ℤ.pos (suc n)) = none
negated_usize (ℤ.negsuc n) = if ltb (suc n) i32_limit then some (suc n) else none
