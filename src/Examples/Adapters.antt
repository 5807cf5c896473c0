-- ===== src/Examples/Adapters.antt =====
-- Runs of llama-cpp-2/src/context.rs: the adapters and the control vector of a context. The scales and
-- the values are natural numbers, of which 99 stands for one that is not finite; what llama.cpp keeps is
-- the list of the numbers that it was given.
use llama_cpp_rs.Prelude.{ℕ, ◌≡◌, Bool, not, List, [], ◌∷◌, map, ◌⊎◌, ◌↔◌, arith, ℤ, ◌==◌}
use llama_cpp_rs.Prelude.Result.{Result}
use llama_cpp_rs.Prelude.Run.{Run}
use llama_cpp_rs.Context.Lora.{
  LlamaLoraAdapter, LlamaLoraAdapterSetError, validate_lora_adapters, lora_adapters_set, replaced,
}
use llama_cpp_rs.Context.Lora.Stack.{IsStack, validate_lora_adapters_iff}
use llama_cpp_rs.Context.Lora.Refusals.{Offends, lora_adapters_set_atomic}
use llama_cpp_rs.Context.ControlVector.{validate_control_vector}
use llama_cpp_rs.Context.ControlVector.Validation.{IsMatrix, validate_iff}

abbrev is_number : ℕ → Bool
is_number n = not (n == 99)

abbrev adapter : ℕ → LlamaLoraAdapter
adapter a = record { lora_adapter = a; model = 7 }

abbrev twice : List (LlamaLoraAdapter × ℕ)
twice = (adapter 1, 5) ∷ (adapter 2, 5) ∷ (adapter 1, 6) ∷ []

abbrev set_adapters : List ℕ → List ℕ → List ℕ → ℤ × List ℕ
set_adapters adapters scales s = (ℤ.pos 0, scales)

validate_lora_adapters_iff_example :
    (validate_lora_adapters is_number 7 twice ≡ Result.ok tt) ↔ IsStack is_number 7 twice
validate_lora_adapters_iff_example = validate_lora_adapters_iff is_number 7 twice

lora_adapters_set_atomic_example :
    (IsStack is_number 7 twice
      × (lora_adapters_set is_number 7 set_adapters twice []
          ≡ replaced (set_adapters (map (λ p. p.0.lora_adapter) twice) (map (λ p. p.1) twice) [])))
    ⊎ ((e : LlamaLoraAdapterSetError) × Offends is_number 7 twice e
        × (lora_adapters_set is_number 7 set_adapters twice [] ≡ Run.err e []))
lora_adapters_set_atomic_example = lora_adapters_set_atomic is_number 7 set_adapters twice []

-- Two columns for the layers 1 and 2 of a model of three layers.
abbrev rows : List ℕ
rows = 1 ∷ 2 ∷ 3 ∷ 4 ∷ []

validate_iff_example :
    (validate_control_vector is_number (ℤ.pos 2) 3 rows 1 2 ≡ Result.ok (ℤ.pos 2, ℤ.pos 1, ℤ.pos 2))
    ↔ IsMatrix is_number 2 3 rows 1 2
validate_iff_example = validate_iff is_number 2 3 rows 1 2 (omega arith) (omega arith)
