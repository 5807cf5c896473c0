-- ===== src/Context/ControlVector/Validation.antt =====
-- `validate_control_vector` against the matrices that it is to accept.
use llama_cpp_rs.Prelude.{
  ℕ, ◌-◌, ◌*◌, ◌≡◌, refl, ◌≤◌, ◌<◌, ◌↔◌, inl, inr, Bool, true, Option, none, List, [], ◌∷◌, length,
  All, ℤ, usize_limit, u32_limit, i32_limit, arith, Option-cases,
}
use llama_cpp_rs.Prelude.Result.{ok, Result-cases}
use llama_cpp_rs.Prelude.Run.{Run}
use llama_cpp_rs.Context.ControlVector.{
  LlamaControlVectorError, ok_or, embedding_width, checked_mul, row_count, first_non_finite,
  all_values_finite, validate_control_vector, control_vector_set,
}

-- The data are one row of `width` finite numbers for each layer but the first, and the range of layers
-- is not empty and leaves the layer 0 out.
pub record IsMatrix {F : Type 0} (is_finite : F → Bool) (width layer_count : ℕ) (xs : List F)
    (start end : ℕ) : Type 0 where
  pub positive : 1 ≤ width
  pub first : 1 ≤ start
  pub ordered : start ≤ end
  pub last : end < layer_count
  pub small : end < i32_limit
  pub complete : length xs ≡ width * (layer_count - 1)
  pub finite : All (λ x. is_finite x ≡ true) xs

module _ {F : Type 0} (is_finite : F → Bool) where
  finite_of_none :
      (xs : List F) → first_non_finite is_finite xs ≡ none → All (λ x. is_finite x ≡ true) xs
  unfolding first_non_finite
  finite_of_none [] h = tt
  finite_of_none (x ∷ xs) h = elim (Option-cases (first_non_finite is_finite xs)) [
    | inl e ↦ (ground arith, finite_of_none xs e)
    | inr (i, e) ↦ ground arith
  ]

  none_of_finite :
      (xs : List F) → All (λ x. is_finite x ≡ true) xs → first_non_finite is_finite xs ≡ none
  unfolding first_non_finite
  none_of_finite [] h = refl
  none_of_finite (x ∷ xs) (h, hs) = ground (arith, none_of_finite xs hs)

  module _ (width layer_count : ℕ) (xs : List F) (start end : ℕ) where
    IsMatrix-of_valid :
        (r : ℤ × ℤ × ℤ)
        → layer_count < u32_limit
        → validate_control_vector is_finite (ℤ.pos width) layer_count xs start end ≡ ok r
        → IsMatrix is_finite width layer_count xs start end
          × (r ≡ (ℤ.pos width, ℤ.pos start, ℤ.pos end))
    unfolding validate_control_vector ok_or embedding_width checked_mul row_count all_values_finite
    IsMatrix-of_valid r small h = elim (Option-cases (first_non_finite is_finite xs)) [
      | inl e ↦ (
        record {
          positive = ground (arith, e);
          first = ground (arith, e);
          ordered = ground (arith, e);
          last = ground (arith, e);
          small = ground (arith, e);
          complete = ground (arith, e);
          finite = finite_of_none xs e;
        },
        ground (arith, e),
      )
      | inr (i, e) ↦ ground (arith, e)
    ]

    valid-of_IsMatrix :
        layer_count < u32_limit
        → width * (layer_count - 1) < usize_limit
        → IsMatrix is_finite width layer_count xs start end
        → validate_control_vector is_finite (ℤ.pos width) layer_count xs start end
          ≡ ok (ℤ.pos width, ℤ.pos start, ℤ.pos end)
    unfolding validate_control_vector ok_or embedding_width checked_mul row_count all_values_finite
    valid-of_IsMatrix small fits m = ground (
      arith,
      none_of_finite xs m.finite,
      m.positive,
      m.first,
      m.ordered,
      m.last,
      m.small,
      m.complete,
    )

    -- For a `u32` number of layers and a matrix that a `usize` can measure, the validation returns the
    -- width and the layers as llama.cpp takes them exactly when the data are a finite number for each
    -- column of each layer but the first, and the layers from start to end are some of those.
    pub validate_iff :
        layer_count < u32_limit
        → width * (layer_count - 1) < usize_limit
        → (validate_control_vector is_finite (ℤ.pos width) layer_count xs start end
            ≡ ok (ℤ.pos width, ℤ.pos start, ℤ.pos end))
          ↔ IsMatrix is_finite width layer_count xs start end
    validate_iff small fits = (
      (λ h. (IsMatrix-of_valid (ℤ.pos width, ℤ.pos start, ℤ.pos end) small h).0),
      valid-of_IsMatrix small fits,
    )

  not_negative :
      (n layer_count : ℕ) (xs : List F) (start end : ℕ) {r : ℤ × ℤ × ℤ}
      → ¬ (validate_control_vector is_finite (ℤ.negsuc n) layer_count xs start end ≡ ok r)
  unfolding validate_control_vector ok_or embedding_width
  not_negative n layer_count xs start end h = ground arith

  module _ {S : Type 0} (set_adapter_cvec : Option (List F) → ℕ → ℤ → ℤ → ℤ → S → ℤ × S) where
    -- Data that are no such matrix are refused, and llama.cpp's state is the one before the call.
    control_vector_set_refused :
        (n_embd : ℤ) (layer_count : ℕ) (xs : List F) (start end : ℕ) (s : S)
        → layer_count < u32_limit
        → ((width : ℕ) → n_embd ≡ ℤ.pos width → ¬ IsMatrix is_finite width layer_count xs start end)
        → (e : LlamaControlVectorError) × (control_vector_set is_finite set_adapter_cvec n_embd
              layer_count xs start end s
            ≡ Run.err e s)
    unfolding control_vector_set
    control_vector_set_refused (ℤ.pos width) layer_count xs start end s small bad =
        elim (Result-cases
          (validate_control_vector is_finite (ℤ.pos width) layer_count xs start end)) [
            | inl (r, e) ↦
                elim (bad width refl
                  (IsMatrix-of_valid width layer_count xs start end r small e).0) [ ]
            | inr (x, e) ↦ (x, ground (arith, e))
          ]
    control_vector_set_refused (ℤ.negsuc n) layer_count xs start end s small bad =
        elim (Result-cases
          (validate_control_vector is_finite (ℤ.negsuc n) layer_count xs start end)) [
            | inl (r, e) ↦ elim (not_negative n layer_count xs start end e) [ ]
            | inr (x, e) ↦ (x, ground (arith, e))
          ]
