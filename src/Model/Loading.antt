-- ===== src/Model/Loading.antt =====
-- llama-cpp-2/src/model.rs: loading a model and its adapters, and making a context of it. llama.cpp is a
-- parameter, over the world `S` that it changes; a null pointer is none.
pub mod Fresh
use llama_cpp_rs.Prelude.{
  ℕ, Bool, true, false, not, ◌||◌, List, [], ◌∷◌, Option, none, some, if◌then◌else◌, ℤ, to_usize,
}
use llama_cpp_rs.Prelude.Run.{Run, ok, err, panic, fault, Method}
use llama_cpp_rs.Prelude.Result
use llama_cpp_rs.Prelude.Text.{Text}
use llama_cpp_rs.Session.{PathBuf, with_c_string}
use llama_cpp_rs.HiddenStates.{
  Capture, HiddenStateCaptureError, unsupported_context, context_creation_failed, Reserve,
}
use llama_cpp_rs.HiddenStates as HiddenStates
use llama_cpp_rs.Context.{LlamaContext}
use llama_cpp_rs.Context as Context
use llama_cpp_rs.Context.Lora.{LlamaLoraAdapter}

pub data LlamaModelLoadError : Type 0 where
  null_error : ℕ → LlamaModelLoadError
  null_result : LlamaModelLoadError
  path_to_str_error : PathBuf → LlamaModelLoadError

pub data LlamaLoraAdapterInitError : Type 0 where
  null_error : ℕ → LlamaLoraAdapterInitError
  null_result : LlamaLoraAdapterInitError
  path_to_str_error : PathBuf → LlamaLoraAdapterInitError

pub data LlamaContextLoadError : Type 0 where
  null_return : LlamaContextLoadError

-- `LlamaModel`, by its address
pub record LlamaModel : Type 0 where
  pub model : ℕ

-- `NonNull::new(…).ok_or(…)` of a call of llama.cpp
unfoldable pub non_null : {S E A : Type 0} → E → (ℕ → A) → Option ℕ × S → Run S E A
non_null e f (none, s) = err e s
non_null e f (some pointer, s) = ok (f pointer) s

module _ {S : Type 0} (exists : PathBuf → Bool) where
  -- `llama_load_model_from_file` with the parameters
  unfoldable pub load_from_file :
      (Text → S → Option ℕ × S) → PathBuf → Method S LlamaModelLoadError LlamaModel
  load_from_file load path s =
      if exists path
      then with_c_string LlamaModelLoadError.path_to_str_error LlamaModelLoadError.null_error path
          (λ bytes t.
            non_null LlamaModelLoadError.null_result (λ m. record { model = m }) (load bytes t))
          s
      else panic

  -- `llama_adapter_lora_init` of the model
  unfoldable pub lora_adapter_init :
      (Text → S → Option ℕ × S)
      → LlamaModel
      → PathBuf
      → Method S LlamaLoraAdapterInitError LlamaLoraAdapter
  lora_adapter_init init model path s =
      if exists path
      then with_c_string LlamaLoraAdapterInitError.path_to_str_error
          LlamaLoraAdapterInitError.null_error path
          (λ bytes t.
            non_null LlamaLoraAdapterInitError.null_result
              (λ a. record { lora_adapter = a; model = model.model }) (init bytes t))
          s
      else panic

-- What llama.cpp tells of a model, and the context that it makes, with or without the callback of a
-- capture: its sizes of a microbatch and of the context.
pub record ContextApi (S : Type 0) : Type 0 where
  pub has_encoder : Bool
  pub has_decoder : Bool
  pub n_embd : ℤ
  pub n_layer : ℤ
  pub create : (with_callback : Bool) → S → Option (ℕ × ℕ) × S

module _ {S F : Type 0} (api : ContextApi S) where
  -- `LlamaContext::new` of the context that llama.cpp made
  unfoldable pub context_of :
      {E : Type 0}
      → E
      → (LlamaContext F → LlamaContext F)
      → Bool
      → Option (ℕ × ℕ) × S
      → Run S E (LlamaContext F)
  context_of e f embeddings (none, s) = err e s
  context_of e f embeddings (some (n_ubatch, n_ctx), s) =
      ok (f (Context.new n_ubatch n_ctx embeddings)) s

  unfoldable pub new_context : (embeddings : Bool) → Method S LlamaContextLoadError (LlamaContext F)
  new_context embeddings s = context_of null_return (λ c. c) embeddings (api.create false s)

  unfoldable pub with_capture_of : Capture F → LlamaContext F → LlamaContext F
  with_capture_of capture c = record c { hidden_state_capture = some capture }

  -- from the capture on
  unfoldable pub captured :
      Result.Result HiddenStateCaptureError (Capture F)
      → Method S HiddenStateCaptureError (LlamaContext F)
  captured (Result.err e) s = err e s
  captured (Result.ok capture) s =
      context_of context_creation_failed (with_capture_of capture) false (api.create true s)

  -- `zero` fills the vectors of the capture, and `reserve` says which allocations succeed; `n_layer()`
  -- panics at a negative number
  unfoldable pub new_context_with_hidden_state_capture :
      F → Reserve → (embeddings : Bool) → List ℕ → Method S HiddenStateCaptureError (LlamaContext F)
  new_context_with_hidden_state_capture zero reserve embeddings config s =
      if embeddings || (api.has_encoder || not api.has_decoder)
      then err unsupported_context s
      else elim (to_usize api.n_layer) [
        | none ↦ panic
        | some layers ↦ captured (HiddenStates.new zero reserve config api.n_embd layers) s
      ]
