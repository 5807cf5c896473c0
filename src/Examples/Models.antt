-- ===== src/Examples/Models.antt =====
-- Runs of llama-cpp-2/src/model.rs, with a vocabulary in which each token is ten letters.
use llama_cpp_rs.Prelude.{
  ℕ, zero, suc, i32_limit, ◌≡◌, ◌≢◌, ◌<◌, refl, true, false, List, [], ◌∷◌, some, length, take,
  arith, ℤ, ◌+◌,
}
use llama_cpp_rs.Prelude.Run.{ok, err}
use llama_cpp_rs.Prelude.Text.{Text}
use llama_cpp_rs.Session.{nul_position}
use llama_cpp_rs.Model.{Special, AddBos, LlamaChatMessage}
use llama_cpp_rs.Model.Pieces.{Pieces, insufficient_buffer_space, token_to_bytes, tokens_to_str}
use llama_cpp_rs.Model.Pieces.Whole.{
  Speaks, answer, whole, token_to_bytes-whole, tokens_to_str-fails,
}
use llama_cpp_rs.Model.Tokenize.{Tokenizer, str_to_token, adds_bos}
use llama_cpp_rs.Model.Tokenize.Complete.{Tokenizes, str_to_token-expected, expected}
use llama_cpp_rs.Model.Tokenize.Complete
use llama_cpp_rs.Model.Metadata.{unfinished, extract_meta_string}
use llama_cpp_rs.Model.Metadata.Ends.{prints, ReturnsI32, extract_meta_string_ends}
use llama_cpp_rs.Context
use llama_cpp_rs.Context.{LlamaContext}
use llama_cpp_rs.Model.Loading.{
  ContextApi, new_context_with_hidden_state_capture, captured, context_of, with_capture_of,
}
use llama_cpp_rs.Model.Loading.Fresh.{IsFresh, new_context_with_hidden_state_capture-IsFresh}
use llama_cpp_rs.Examples.Captures.{ones, plenty, built, built_lem}
use llama_cpp_rs.Model.Chat.{Formatter, apply_chat_template, message_length}
use llama_cpp_rs.Model.Chat.Formatted.{Formats, apply_chat_template-text}

abbrev ten : Text
ten = b'a' ∷ b'b' ∷ b'c' ∷ b'd' ∷ b'e' ∷ b'f' ∷ b'g' ∷ b'h' ∷ b'i' ∷ b'j' ∷ []

-- Token 0 is one letter, each other token is ten.
abbrev piece_of : ℤ → Text
piece_of (ℤ.pos zero) = b'x' ∷ []
piece_of (ℤ.pos (suc n)) = ten
piece_of (ℤ.negsuc n) = ten

abbrev letters : Pieces
letters token len strip special = answer (piece_of token) len

piece_of-small : (token : ℤ) → length (piece_of token) < i32_limit
piece_of-small (ℤ.pos zero) = ground arith
piece_of-small (ℤ.pos (suc n)) = ground arith
piece_of-small (ℤ.negsuc n) = ground arith

abbrev letters-Speaks : Speaks letters
letters-Speaks = record {
  piece = λ token strip special. piece_of token;
  answers = λ token len strip special. refl;
  small = λ token strip special. piece_of-small token;
}

token_to_bytes-whole_example : token_to_bytes letters (ℤ.pos 7) Special.tokenize tt ≡ whole ten tt
token_to_bytes-whole_example =
    token_to_bytes-whole letters letters-Speaks (ℤ.pos 7) Special.tokenize tt

tokens_to_str-fails_example :
    (tokens_to_str letters (λ t. true) (ℤ.pos 0 ∷ ℤ.pos 7 ∷ []) Special.plaintext tt
      ≡ err (insufficient_buffer_space (ℤ.negsuc 9)) tt)
    × (token_to_bytes letters (ℤ.pos 7) Special.plaintext tt ≡ ok ten tt)
tokens_to_str-fails_example =
    tokens_to_str-fails letters letters-Speaks (λ t. true) (ℤ.pos 0 ∷ []) [] (ℤ.pos 7)
      Special.plaintext tt ((ground arith, ground arith, unfold nul_position in refl), tt)
      (ground arith) (unfold nul_position in refl)

-- A text has two tokens, whatever it is.
abbrev pair : List ℤ
pair = ℤ.pos 1 ∷ ℤ.pos 2 ∷ []

pair-small : length pair < i32_limit
pair-small = ground arith

abbrev two_tokens : Tokenizer
two_tokens text room add_bos = Complete.answer pair room

abbrev two_tokens-Tokenizes : Tokenizes two_tokens
two_tokens-Tokenizes = record {
  tokens = λ text add_bos. pair;
  answers = λ text room add_bos. refl;
  small = λ text add_bos. pair-small;
}

str_to_token-expected_example :
    str_to_token two_tokens [] AddBos.never tt
    ≡ expected two_tokens two_tokens-Tokenizes [] (adds_bos AddBos.never) tt
str_to_token-expected_example =
    str_to_token-expected two_tokens two_tokens-Tokenizes [] AddBos.never tt

prints-ReturnsI32 : ReturnsI32 (prints ten)
unfolding prints
prints-ReturnsI32 n returned written e = ground (arith, e)

extract_meta_string_ends_example :
    extract_meta_string (λ t. true) (prints ten) 2_147_483_640 64 tt ≢ err unfinished tt
extract_meta_string_ends_example =
    extract_meta_string_ends (λ t. true) (prints ten) prints-ReturnsI32 2_147_483_640 64 tt tt
      (ground arith) (ground arith)

-- Every chat is formatted to the ten letters.
abbrev greeting : Formatter
greeting tmpl chat add_ass len = (ℤ.pos (length ten), take len ten)

abbrev greeting-Formats : Formats greeting
greeting-Formats = record {
  text = λ tmpl chat add_ass. ten;
  answers = λ tmpl chat add_ass len. refl;
}

abbrev chat : List LlamaChatMessage
chat = record { role = b'u' ∷ []; content = b'h' ∷ b'i' ∷ [] } ∷ []

apply_chat_template-text_example :
    apply_chat_template (λ t. true) greeting record { text = [] } chat true tt ≡ ok ten tt
apply_chat_template-text_example =
    apply_chat_template-text (λ t. true) greeting greeting-Formats record { text = [] } chat true tt
      (unfold message_length in ground arith)

-- A decoder of three layers and width 2.
abbrev decoder : ContextApi ℕ
decoder = record {
  has_encoder = false;
  has_decoder = true;
  n_embd = ℤ.pos 2;
  n_layer = ℤ.pos 3;
  create = λ with_callback s. (some (8, 16), s + 1);
}

abbrev captures : LlamaContext ℕ
captures = record {
  n_ubatch = 8;
  n_ctx = 16;
  initialized_logits = [];
  embeddings_enabled = false;
  hidden_state_capture = some built;
}

new_context_with_hidden_state_capture-IsFresh_example :
    (false ≡ false)
    × (false ≡ false)
    × (true ≡ true)
    × IsFresh decoder ones 0 plenty (2 ∷ 0 ∷ []) captures
new_context_with_hidden_state_capture-IsFresh_example =
    new_context_with_hidden_state_capture-IsFresh decoder ones 0 plenty false (2 ∷ 0 ∷ []) 0
      {c = captures} {s' = 1}
      (unfold new_context_with_hidden_state_capture captured context_of Context.new
          with_capture_of in
        rw built_lem refl)
