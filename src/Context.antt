-- ===== src/Context.antt =====
-- llama-cpp-2/src/context.rs: `LlamaContext` with its decode and encode calls, over the capture of
-- hidden states that shares its scheduler. What llama.cpp answers is a parameter.
pub mod Decoding
pub mod Logits
pub mod Lora
pub mod ControlVector
use llama_cpp_rs.Prelude.{
  ℕ, zero, suc, Bool, true, false, Option, none, some, List, [], ◌∷◌, ◌==◌, if◌then◌else◌, ℤ,
  int_eqb,
}
use llama_cpp_rs.Prelude.Run.{Run, ok, err, panic, fault}
use llama_cpp_rs.Batch.{LlamaBatch}
use llama_cpp_rs.HiddenStates.{
  HiddenStateCaptureError, not_enabled, LayerHiddenState, Capture, Reserve,
}
use llama_cpp_rs.HiddenStates.Row.{Tensor}
use llama_cpp_rs.HiddenStates.Machine
use llama_cpp_rs.HiddenStates.Machine.{Native, Act, calls}

-- `n_ubatch` and `n_ctx` are what llama.cpp answers for this context.
pub record LlamaContext (F : Type 0) : Type 0 where
  pub n_ubatch : ℕ
  pub n_ctx : ℕ
  pub initialized_logits : List ℤ
  pub embeddings_enabled : Bool
  pub hidden_state_capture : Option (Capture F)

-- `LlamaContext::new(_, _, embeddings_enabled)`
unfoldable pub new : {F : Type 0} → ℕ → ℕ → Bool → LlamaContext F
new n_ubatch n_ctx embeddings_enabled = record {
  n_ubatch = n_ubatch;
  n_ctx = n_ctx;
  initialized_logits = [];
  embeddings_enabled = embeddings_enabled;
  hidden_state_capture = none;
}

pub data DecodeError : Type 0 where
  no_kv_cache_slot n_tokens_zero : DecodeError
  unknown : ℤ → DecodeError

pub data EncodeError : Type 0 where
  no_kv_cache_slot n_tokens_zero : EncodeError
  unknown : ℤ → EncodeError

-- `From<NonZeroI32>`
unfoldable pub decode_error : ℤ → DecodeError
decode_error code =
    if int_eqb code (ℤ.pos 1)
    then DecodeError.no_kv_cache_slot
    else (if int_eqb code (ℤ.negsuc 0) then DecodeError.n_tokens_zero else DecodeError.unknown code)

unfoldable pub encode_error : ℤ → EncodeError
encode_error code =
    if int_eqb code (ℤ.pos 1)
    then EncodeError.no_kv_cache_slot
    else (if int_eqb code (ℤ.negsuc 0) then EncodeError.n_tokens_zero else EncodeError.unknown code)

-- What one evaluation of llama.cpp does: the calls that its scheduler makes, and its return code.
pub record Evaluation : Type 0 where
  pub scheduled : List (Option Tensor × Bool)
  pub code : ℤ

abbrev pub Decoding : Type 0 → Type 0
Decoding F = Run (LlamaContext F) DecodeError (Unit {0})

module _ {F : Type 0} where
  -- goes on with the capture that a call has left
  unfoldable pub resume :
      LlamaContext F → (LlamaContext F → Decoding F) → Act F (Unit {0}) → Decoding F
  resume c k (ok a capture) = k (record c { hidden_state_capture = some capture })
  resume c k (err e capture) = k (record c { hidden_state_capture = some capture })
  resume c k panic = panic
  resume c k fault = fault

  -- a call of the capture, if one is installed
  unfoldable pub with_capture :
      (Capture F → Act F (Unit {0})) → LlamaContext F → (LlamaContext F → Decoding F) → Decoding F
  with_capture f c k = elim c.hidden_state_capture [
    | none ↦ k c
    | some capture ↦ resume c k (f capture)
  ]

  -- what the scheduler and `finish` do to the capture, once `begin` has returned
  unfoldable pub evaluated : Native F → Evaluation → Option (Capture F) → Option (Capture F)
  evaluated native e none = none
  evaluated native e (some capture) =
      some (Machine.finish (int_eqb e.code (ℤ.pos 0)) (calls native e.scheduled capture))

  -- the `match` on the return code
  unfoldable pub settle : ℤ → LlamaBatch → LlamaContext F → Decoding F
  settle code batch c =
      if int_eqb code (ℤ.pos 0)
      then ok tt (record c { initialized_logits = batch.initialized_logits })
      else err (decode_error code) c

  unfoldable pub decode : Native F → Evaluation → LlamaBatch → LlamaContext F → Decoding F
  decode native e batch c = with_capture (Machine.begin batch c.n_ubatch) c λ c'.
      settle e.code batch
        (record c' { hidden_state_capture = evaluated native e c'.hidden_state_capture })

  -- `encode`: the capture refuses it; the scheduler calls the callback all the same
  unfoldable pub refused : Native F → Evaluation → Option (Capture F) → Option (Capture F)
  refused native e none = none
  refused native e (some capture) = some (calls native e.scheduled (Machine.unsupported capture))

  unfoldable pub encode :
      Native F
      → Evaluation
      → LlamaBatch
      → LlamaContext F
      → Run (LlamaContext F) EncodeError (Unit {0})
  encode native e batch c =
      let c' = record c { hidden_state_capture = refused native e c.hidden_state_capture } in
      if int_eqb e.code (ℤ.pos 0)
      then ok tt (record c' { initialized_logits = batch.initialized_logits })
      else err (encode_error e.code) c'

  -- `self.hidden_state_capture.as_ref().ok_or(NotEnabled)?` and a method of the capture
  unfoldable pub on_capture :
      {A : Type 0}
      → (Capture F → Act F A)
      → LlamaContext F
      → Run (LlamaContext F) HiddenStateCaptureError A
  on_capture f c = elim c.hidden_state_capture [
    | none ↦ err not_enabled c
    | some capture ↦ elim (f capture) [
      | ok a capture' ↦ ok a (record c { hidden_state_capture = some capture' })
      | err e capture' ↦ err e (record c { hidden_state_capture = some capture' })
      | panic ↦ panic
      | fault ↦ fault
    ]
  ]

  unfoldable pub set_hidden_state_capture_enabled :
      Bool → LlamaContext F → Run (LlamaContext F) HiddenStateCaptureError (Unit {0})
  set_hidden_state_capture_enabled enabled = on_capture (Machine.set_enabled enabled)

  unfoldable pub take_hidden_states :
      Reserve
      → LlamaContext F
      → Run (LlamaContext F) HiddenStateCaptureError (List (LayerHiddenState F))
  take_hidden_states reserve = on_capture (Machine.take reserve)
