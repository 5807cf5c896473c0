-- ===== src/Model/Loading/Fresh.antt =====
-- llama-cpp-2/src/model.rs: a context with a capture, what it needs, and what it starts as.
use llama_cpp_rs.Prelude.{
  ℕ, ◌≡◌, refl, sym, Bool, true, false, not, ◌||◌, List, [], Option, none, some, arith, ℤ, ◌⊎◌, inl,
  inr,
}
use llama_cpp_rs.Prelude.Run.{ok, unless_inv}
use llama_cpp_rs.Prelude.Result
use llama_cpp_rs.HiddenStates.{
  Capture, HiddenStateCaptureError, unsupported_context, context_creation_failed, Reserve,
}
use llama_cpp_rs.HiddenStates as HiddenStates
use llama_cpp_rs.HiddenStates.Construction.{IsSelection, new_inv}
use llama_cpp_rs.HiddenStates.Machine.{Native}
use llama_cpp_rs.HiddenStates.Machine.Soundness.{IsSound}
use mathlib.Core.Path.{subst}
use llama_cpp_rs.Context.{LlamaContext}
use llama_cpp_rs.Context as Context
use llama_cpp_rs.Model.Loading.{
  ContextApi, context_of, with_capture_of, captured, new_context_with_hidden_state_capture,
}

ℤ-cases : (n : ℤ) → ((k : ℕ) × (n ≡ ℤ.pos k)) ⊎ ((k : ℕ) × (n ≡ ℤ.negsuc k))
ℤ-cases (ℤ.pos k) = inl (k, refl)
ℤ-cases (ℤ.negsuc k) = inr (k, refl)

module _ {S F : Type 0} (api : ContextApi S) (native : Native F) (zero : F)
    (reserve : Reserve) where
  -- A context that has just been made with a capture of the layers `config`.
  abbrev pub IsFresh : List ℕ → LlamaContext F → Type 0
  IsFresh config c =
      (c.initialized_logits ≡ [])
      × (c.embeddings_enabled ≡ false)
      × ((capture : Capture F) × (limit : ℕ) × (width : ℕ) × (c.hidden_state_capture ≡ some capture)
          × (api.n_layer ≡ ℤ.pos limit)
          × (api.n_embd ≡ ℤ.pos width)
          × IsSelection limit width config
          × IsSound native config width capture.state)

  context_of-ok :
      {E : Type 0} (e : E) (f : LlamaContext F → LlamaContext F) (embeddings : Bool)
      (r : Option (ℕ × ℕ) × S) {c : LlamaContext F} {s' : S}
      → context_of api e f embeddings r ≡ ok c s'
      → (n_ubatch : ℕ) × (n_ctx : ℕ) × (c ≡ f (Context.new n_ubatch n_ctx embeddings))
  unfolding context_of
  context_of-ok e f embeddings (none, s) h = cc
  context_of-ok e f embeddings (some (n_ubatch, n_ctx), s) h = (n_ubatch, n_ctx, ground arith)

  captured-IsFresh :
      (config : List ℕ) (limit : ℕ) (r : Result.Result HiddenStateCaptureError (Capture F)) (s : S)
      {c : LlamaContext F} {s' : S}
      → HiddenStates.new zero reserve config api.n_embd limit ≡ r
      → api.n_layer ≡ ℤ.pos limit
      → captured api r s ≡ ok c s'
      → IsFresh config c
  unfolding captured
  captured-IsFresh config limit (Result.err e) s p n h = cc
  captured-IsFresh config limit (Result.ok capture) s p n h =
      let (n_ubatch, n_ctx, is) =
        context_of-ok context_creation_failed (with_capture_of api capture) false
          (api.create true s) h in
      let (width, w, selection, sound) =
        new_inv native zero reserve config api.n_embd limit capture p in
      subst (IsFresh config) (sym is) (
        unfold with_capture_of Context.new in
        (refl, refl, (capture, limit, width, refl, n, w, selection, sound)))

  refused_first :
      (embeddings : Bool) (config : List ℕ) (s : S) {c : LlamaContext F} {s' : S}
      → new_context_with_hidden_state_capture api zero reserve embeddings config s ≡ ok c s'
      → ((embeddings || (api.has_encoder || not api.has_decoder)) ≡ false)
        × ((limit : ℕ) × (api.n_layer ≡ ℤ.pos limit)
            × (captured api (HiddenStates.new zero reserve config api.n_embd limit) s ≡ ok c s'))
  unfolding new_context_with_hidden_state_capture
  refused_first embeddings config s h =
      let (may, rest) =
        unless_inv (embeddings || (api.has_encoder || not api.has_decoder)) unsupported_context s _
          h in
      elim (ℤ-cases api.n_layer) [
        | inl (n, e) ↦ (may, (n, e, ground (arith, rest, e)))
        | inr (n, e) ↦ ground (arith, rest, e)
      ]

  -- A context is made with a capture only without embeddings and for a model that decodes and does not
  -- encode; it has no logits yet, and a sound capture for a valid selection of the model's layers.
  pub new_context_with_hidden_state_capture-IsFresh :
      (embeddings : Bool) (config : List ℕ) (s : S) {c : LlamaContext F} {s' : S}
      → new_context_with_hidden_state_capture api zero reserve embeddings config s ≡ ok c s'
      → (embeddings ≡ false)
        × (api.has_encoder ≡ false)
        × (api.has_decoder ≡ true)
        × IsFresh config c
  new_context_with_hidden_state_capture-IsFresh embeddings config s h =
      let (may, (limit, n, rest)) = refused_first embeddings config s h in
      (
        ground (arith, may),
        ground (arith, may),
        ground (arith, may),
        captured-IsFresh config limit _ s refl n rest,
      )
