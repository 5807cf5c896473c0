-- ===== src/Examples/Contexts.antt =====
-- Runs of llama-cpp-2/src/context.rs: decoding, and the readouts after it.
use llama_cpp_rs.Prelude.{ℕ, ◌≡◌, refl, false, some, none, [], ◌∷◌, arith, ℤ}
use llama_cpp_rs.Prelude.Run.{ok, err, panic}
use llama_cpp_rs.HiddenStates.{unsupported_batch}
use llama_cpp_rs.HiddenStates.Shape.{batch_shape}
use llama_cpp_rs.Context.{
  LlamaContext, DecodeError, Evaluation, with_capture, evaluated, settle, decode,
  take_hidden_states,
}
use llama_cpp_rs.Context.Decoding.{left, decode_refused}
use llama_cpp_rs.Context.Logits.{Readout, get_logits_ith}
use llama_cpp_rs.Context.Logits.Marks.{get_logits_ith_asked, get_logits_ith_unasked}
use llama_cpp_rs.Examples.Captures.{ones, plenty, lone, lone_batch}
use llama_cpp_rs.Examples.Evaluations.{created, single}

-- An evaluation that calls the callback once and returns 0.
abbrev good : Evaluation
good = record { scheduled = (none, false) ∷ []; code = ℤ.pos 0 }

-- A context whose microbatches have room for no token, with a capture.
abbrev narrow : LlamaContext ℕ
narrow = record {
  n_ubatch = 0;
  n_ctx = 8;
  initialized_logits = [];
  embeddings_enabled = false;
  hidden_state_capture = some created;
}

abbrev plain : LlamaContext ℕ
plain = record {
  n_ubatch = 4;
  n_ctx = 8;
  initialized_logits = [];
  embeddings_enabled = false;
  hidden_state_capture = none;
}

single_lem : batch_shape single 0 ≡ err unsupported_batch tt
unfolding batch_shape
single_lem = refl

decode_refused_example :
    (c' : LlamaContext ℕ) × (left (decode ones good single narrow) ≡ some c')
    × (take_hidden_states plenty c' ≡ err unsupported_batch c')
decode_refused_example =
    decode_refused ones good single narrow created unsupported_batch plenty refl refl refl
      single_lem

abbrev readout : Readout ℕ
readout = record {
  n_vocab = ℤ.pos 2;
  n_embd_out = ℤ.pos 2;
  n_cls_out = 1;
  is_rank = false;
  logits = none;
  logits_ith = λ i. some (5 ∷ 6 ∷ []);
  embeddings_seq = λ i. none;
  embeddings_ith = λ i. none;
}

-- The context after the batch of one token is decoded.
abbrev after : LlamaContext ℕ
after = record plain { initialized_logits = lone_batch.0.initialized_logits }

after_lem : decode ones good lone_batch.0 plain ≡ ok tt after
unfolding decode with_capture evaluated settle
after_lem = refl

get_logits_ith_asked_example :
    get_logits_ith readout {E = DecodeError} (ℤ.pos 0) after ≡ ok (5 ∷ 6 ∷ []) after
get_logits_ith_asked_example =
    get_logits_ith_asked ones good readout plain after lone_batch.0 (lone ∷ []) lone_batch.2
      after_lem 0 lone (5 ∷ 6 ∷ []) refl refl (omega arith) refl refl

get_logits_ith_unasked_example : get_logits_ith readout {E = DecodeError} (ℤ.negsuc 0) after ≡ panic
get_logits_ith_unasked_example =
    get_logits_ith_unasked ones good readout plain after lone_batch.0 (lone ∷ []) lone_batch.2
      after_lem (ℤ.negsuc 0) λ asks. ground (arith, asks.2)
