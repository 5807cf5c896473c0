-- ===== src/Context/ControlVector.antt =====
-- llama-cpp-2/src/context.rs: `control_vector_set`, `control_vector_clear` and
-- `validate_control_vector`. Whether a number is finite, and `llama_set_adapter_cvec`, are parameters.
pub mod Validation
use llama_cpp_rs.Prelude.{
  ℕ, zero, suc, ◌-◌, ◌*◌, ◌≡◌, ◌≤◌, ◌<◌, Bool, true, false, not, ◌||◌, Option, none, some, List, [],
  ◌∷◌, length, ltb, leb, ◌==◌, if◌then◌else◌, ℤ, int_eqb, to_i32, to_usize, usize_limit,
}
use llama_cpp_rs.Prelude.Result.{Result, ok, err, ◌>>=◌, ◌>>◌, guard}
use llama_cpp_rs.Prelude.Run.{Run}

pub data LlamaControlVectorError : Type 0 where
  invalid_embedding_width : ℤ → LlamaControlVectorError
  insufficient_layers : ℕ → LlamaControlVectorError
  invalid_layer_range : (start end layer_count : ℕ) → LlamaControlVectorError
  length_overflow : LlamaControlVectorError
  length_mismatch : (expected actual : ℕ) → LlamaControlVectorError
  non_finite_value : (index : ℕ) → LlamaControlVectorError
  layer_index_out_of_range : ℕ → LlamaControlVectorError
  error_result : ℤ → LlamaControlVectorError

-- `ok_or`
unfoldable pub ok_or :
    {A : Type 0} → LlamaControlVectorError → Option A → Result LlamaControlVectorError A
ok_or e none = err e
ok_or e (some a) = ok a

-- `try_from(n_embd).ok().filter(|width| *width > 0)`
unfoldable pub embedding_width : ℤ → Option ℕ
embedding_width (ℤ.pos zero) = none
embedding_width (ℤ.pos (suc w)) = some (suc w)
embedding_width (ℤ.negsuc w) = none

unfoldable pub checked_mul : ℕ → ℕ → Option ℕ
checked_mul a b = if ltb (a * b) usize_limit then some (a * b) else none

-- `usize::try_from` of a `u32`, which a usize of 64 bits holds
unfoldable pub row_count : ℕ → Option ℕ
row_count n = if ltb n usize_limit then some n else none

module _ {F : Type 0} (is_finite : F → Bool) where
  -- `data.iter().position(|value| !value.is_finite())`
  unfoldable pub first_non_finite : List F → Option ℕ
  first_non_finite [] = none
  first_non_finite (x ∷ xs) =
      if is_finite x
      then elim (first_non_finite xs) [ none ↦ none | some i ↦ some (suc i) ]
      else some 0

  unfoldable pub all_values_finite : List F → Result LlamaControlVectorError (Unit {0})
  all_values_finite data' = elim (first_non_finite data') [
    | none ↦ ok tt
    | some i ↦ err (non_finite_value i)
  ]

  unfoldable pub validate_control_vector :
      ℤ → ℕ → List F → ℕ → ℕ → Result LlamaControlVectorError (ℤ × ℤ × ℤ)
  validate_control_vector n_embd layer_count data' layer_start layer_end = do
    width ← ok_or (invalid_embedding_width n_embd) (embedding_width n_embd)
    guard (leb 2 layer_count) (insufficient_layers layer_count)
    guard (not ((layer_start == 0) || (ltb layer_end layer_start || leb layer_count layer_end)))
        (invalid_layer_range layer_start layer_end layer_count)
    rows ← ok_or length_overflow (row_count (layer_count - 1))
    expected ← ok_or length_overflow (checked_mul width rows)
    guard (length data' == expected) (length_mismatch expected (length data'))
    all_values_finite data'
    start ← ok_or (layer_index_out_of_range layer_start) (to_i32 layer_start)
    end ← ok_or (layer_index_out_of_range layer_end) (to_i32 layer_end)
    ok (n_embd, start, end)

module _ {F S : Type 0} (is_finite : F → Bool)
    (set_adapter_cvec : Option (List F) → ℕ → ℤ → ℤ → ℤ → S → ℤ × S) where
  -- `if err_code != 0`
  unfoldable pub checked : ℤ × S → Run S LlamaControlVectorError (Unit {0})
  checked (code, s) = if int_eqb code (ℤ.pos 0) then Run.ok tt s else Run.err (error_result code) s

  -- `S` is what llama.cpp keeps for the context.
  unfoldable pub control_vector_set :
      ℤ → ℕ → List F → ℕ → ℕ → S → Run S LlamaControlVectorError (Unit {0})
  control_vector_set n_embd n_layer data' layer_start layer_end s =
      elim (validate_control_vector is_finite n_embd n_layer data' layer_start layer_end) [
        | err e ↦ Run.err e s
        | ok (width, start, end) ↦
            checked (set_adapter_cvec (some data') (length data') width start end s)
      ]

  unfoldable pub control_vector_clear : S → Run S LlamaControlVectorError (Unit {0})
  control_vector_clear s = checked (set_adapter_cvec none 0 (ℤ.pos 0) (ℤ.pos 0) (ℤ.pos 0) s)
