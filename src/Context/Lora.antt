-- ===== src/Context/Lora.antt =====
-- llama-cpp-2/src/context.rs: `lora_adapter_set`, `lora_adapters_set`, `lora_adapter_remove` and
-- `validate_lora_adapters`. Whether a scale is finite, and `llama_set_adapters_lora`, are parameters.
pub mod Stack
pub mod Refusals
use llama_cpp_rs.Prelude.{
  ℕ, suc, Bool, true, false, not, Option, none, some, List, [], ◌∷◌, map, ◌==◌, if◌then◌else◌, ℤ,
  int_eqb, ◌++◌,
}
use llama_cpp_rs.Prelude.Result.{Result, ok, err}
use llama_cpp_rs.Prelude.Run.{Run}

-- `LlamaLoraAdapter`: llama.cpp's adapter and the model it was loaded for, by their addresses
pub record LlamaLoraAdapter : Type 0 where
  pub lora_adapter : ℕ
  pub model : ℕ

pub data LlamaLoraAdapterSetError : Type 0 where
  non_finite_scale : (index : ℕ) → LlamaLoraAdapterSetError
  model_mismatch : (index : ℕ) → LlamaLoraAdapterSetError
  duplicate_adapter : (first_index duplicate_index : ℕ) → LlamaLoraAdapterSetError
  error_result : ℤ → LlamaLoraAdapterSetError

pub data LlamaLoraAdapterRemoveError : Type 0 where
  error_result : ℤ → LlamaLoraAdapterRemoveError

module _ {F : Type 0} where
  -- `position(|(prior, _)| prior.lora_adapter == adapter.lora_adapter)`
  unfoldable pub position : ℕ → List (LlamaLoraAdapter × F) → Option ℕ
  position a [] = none
  position a ((prior, scale) ∷ rest) =
      if prior.lora_adapter == a
      then some 0
      else elim (position a rest) [ none ↦ none | some i ↦ some (suc i) ]

module _ {F : Type 0} (is_finite : F → Bool) (context_model : ℕ) where
  -- one turn of the loop: `priors` is `adapters[..index]`
  unfoldable pub check_adapter :
      List (LlamaLoraAdapter × F)
      → ℕ
      → LlamaLoraAdapter
      → F
      → Result LlamaLoraAdapterSetError (Unit {0})
  check_adapter priors index adapter scale =
      if not (is_finite scale)
      then err (non_finite_scale index)
      else if not (adapter.model == context_model)
      then err (model_mismatch index)
      else elim (position adapter.lora_adapter priors) [
        | some first_index ↦ err (duplicate_adapter first_index index)
        | none ↦ ok tt
      ]

  unfoldable pub check_from :
      List (LlamaLoraAdapter × F)
      → ℕ
      → List (LlamaLoraAdapter × F)
      → Result LlamaLoraAdapterSetError (Unit {0})
  check_from priors index [] = ok tt
  check_from priors index ((adapter, scale) ∷ rest) =
      elim (check_adapter priors index adapter scale) [
        | err e ↦ err e
        | ok done ↦ check_from (priors ++ (adapter, scale) ∷ []) (suc index) rest
      ]

  unfoldable pub validate_lora_adapters :
      List (LlamaLoraAdapter × F) → Result LlamaLoraAdapterSetError (Unit {0})
  validate_lora_adapters adapters = check_from [] 0 adapters

module _ {S : Type 0} where
  -- `if err_code != 0`
  unfoldable pub replaced : ℤ × S → Run S LlamaLoraAdapterSetError (Unit {0})
  replaced (code, s) =
      if int_eqb code (ℤ.pos 0)
      then Run.ok tt s
      else Run.err (LlamaLoraAdapterSetError.error_result code) s

module _ {F S : Type 0} (is_finite : F → Bool) (context_model : ℕ)
    (set_adapters_lora : List ℕ → List F → S → ℤ × S) where
  -- `S` is what llama.cpp keeps for the context; an empty list is passed as a null pointer and 0.
  unfoldable pub lora_adapters_set :
      List (LlamaLoraAdapter × F) → S → Run S LlamaLoraAdapterSetError (Unit {0})
  lora_adapters_set adapters s = elim (validate_lora_adapters is_finite context_model adapters) [
    | err e ↦ Run.err e s
    | ok done ↦
        replaced
          (set_adapters_lora (map (λ p. p.0.lora_adapter) adapters) (map (λ p. p.1) adapters) s)
  ]

  unfoldable pub lora_adapter_set :
      LlamaLoraAdapter → F → S → Run S LlamaLoraAdapterSetError (Unit {0})
  lora_adapter_set adapter scale = lora_adapters_set ((adapter, scale) ∷ [])

  unfoldable pub lora_adapter_remove : S → Run S LlamaLoraAdapterRemoveError (Unit {0})
  lora_adapter_remove s =
      let (code, s') = set_adapters_lora [] [] s in
      if int_eqb code (ℤ.pos 0)
      then Run.ok tt s'
      else Run.err (LlamaLoraAdapterRemoveError.error_result code) s'
