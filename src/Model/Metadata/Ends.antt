-- ===== src/Model/Metadata/Ends.antt =====
-- model.rs: the search for a large enough buffer, its end and its result.
use mathlib.Core.List.{append_assoc}
use llama_cpp_rs.Prelude.{
  ℕ, zero, suc, ◌+◌, ◌≡◌, ◌≢◌, ◌<◌, ◌≤◌, refl, ap, ◌∙◌, Bool, true, [], ◌∷◌, ◌++◌, length,
  length-append, take, drop, replicate, leb, ltb, if_rule, ℤ, i32_limit, arith, length-take-le,
  take-eq_of_le, take-append, Bool-cases, inl, inr,
}
use llama_cpp_rs.Prelude.Run.{Run, err}
use llama_cpp_rs.Prelude.Text.{Text}
use llama_cpp_rs.Model.Metadata.{
  MetaValError, unfinished, MetaFunction, is_null_at, meta_utf8, meta_buffer, meta_fits,
  meta_result, extract_meta_string,
}

-- The function returns an `i32`.
abbrev pub ReturnsI32 : MetaFunction → Type 0
ReturnsI32 f =
    (n returned : ℕ) (written : Text) → f n ≡ (ℤ.pos returned, written) → returned < i32_limit

module _ {S : Type 0} (is_utf8 : Text → Bool) (c_function : MetaFunction) where
  -- The fuel did not run out.
  abbrev pub Ends : Run S MetaValError Text → Type 0
  Ends r = (s : S) → r ≢ err unfinished s

  meta_fits-Ends : (len : ℕ) (buffer : Text) (s : S) → Ends (meta_fits is_utf8 len buffer s)
  unfolding meta_fits meta_utf8
  meta_fits-Ends len buffer s t = ground arith

  meta_result-Ends :
      (capacity fuel : ℕ) (r : ℤ × Text) (s : S)
      → i32_limit < suc fuel + capacity
      → ((returned : ℕ) (written : Text) → r ≡ (ℤ.pos returned, written) → returned < i32_limit)
      → ((larger : ℕ)
          → capacity < larger
          → larger ≤ i32_limit
          → Ends (extract_meta_string is_utf8 c_function fuel larger s))
      → Ends (
          meta_result is_utf8 c_function capacity (extract_meta_string is_utf8 c_function fuel) r s)
  unfolding meta_result
  meta_result-Ends capacity fuel (ℤ.negsuc n, written) s h small again = λ t. cc
  meta_result-Ends capacity fuel (ℤ.pos n, written) s h small again =
      let bound = small n written refl in
      if_rule Ends (ltb capacity (length written)) _ _ (λ _ t. cc)
        (λ _.
          if_rule Ends (leb capacity n) _ _
            (λ (e : leb capacity n ≡ true). again (n + 1) (ground arith) (omega (arith, bound)))
            (λ _. meta_fits-Ends n (meta_buffer capacity written) s))

  extract_meta_string-Ends :
      ReturnsI32 c_function
      → (fuel capacity : ℕ) (s : S) → 0 < fuel
      → i32_limit < fuel + capacity
      → Ends (extract_meta_string is_utf8 c_function fuel capacity s)
  unfolding extract_meta_string
  extract_meta_string-Ends i32 zero capacity s some_fuel h = absurd (omega arith)
  extract_meta_string-Ends i32 (suc fuel) capacity s some_fuel h =
      meta_result-Ends capacity fuel (c_function capacity) s h (λ n w e. i32 capacity n w e)
        (λ larger more few. extract_meta_string-Ends i32 fuel larger s (omega arith) (omega arith))

  -- Whatever llama.cpp returns, as long as it is an `i32`, the calls come to an end: a fuel above 2^31
  -- less the first capacity is enough, since each call has a larger buffer and none is larger than that.
  pub extract_meta_string_ends :
      ReturnsI32 c_function
      → (fuel capacity : ℕ) (s t : S) → 0 < fuel
      → i32_limit < fuel + capacity
      → extract_meta_string is_utf8 c_function fuel capacity s ≢ err unfinished t
  extract_meta_string_ends i32 fuel capacity s t some_fuel h =
      extract_meta_string-Ends i32 fuel capacity s some_fuel h t

-- What llama.cpp's functions for a value do, as `snprintf` does: they return its length, and write as
-- much of it as leaves room for a null byte, and that byte.
unfoldable pub written_of : Text → ℕ → Text
written_of value zero = []
written_of value (suc n) = take n value ++ (0 ∷ [])

unfoldable pub prints : Text → MetaFunction
prints value n = (ℤ.pos (length value), written_of value n)

null_after : (xs ys : Text) → is_null_at (xs ++ (0 ∷ ys)) (length xs) ≡ true
unfolding is_null_at
null_after [] ys = refl
null_after (x ∷ xs) ys = null_after xs ys

written_of-small : (value : Text) (capacity : ℕ) → length (written_of value capacity) ≤ capacity
unfolding written_of
written_of-small value zero = omega arith
written_of-small value (suc n) =
    omega (arith, length-append (take n value) (0 ∷ []), length-take-le n value)

module _ {S : Type 0} (is_utf8 : Text → Bool) (value : Text) where
  meta_fits-value :
      (capacity : ℕ) (s : S)
      → length value < capacity
      → meta_fits is_utf8 (length value) (meta_buffer capacity (written_of value capacity)) s
        ≡ meta_utf8 is_utf8 value s
  unfolding meta_fits meta_buffer written_of
  meta_fits-value zero s h = absurd (omega arith)
  meta_fits-value (suc n) s h =
      let full = take-eq_of_le n value (omega arith) in
      let rest = drop (length (take n value ++ (0 ∷ []))) (replicate (suc n) 0) in
      let shape : (take n value ++ (0 ∷ [])) ++ rest ≡ value ++ (0 ∷ rest) =
        ap (λ t. (t ++ (0 ∷ [])) ++ rest) full ∙ append_assoc value (0 ∷ []) rest in
      ground (arith, shape, null_after value rest, take-append value (0 ∷ rest))

  fits-value :
      (fuel capacity : ℕ) (s : S)
      → length value < capacity
      → extract_meta_string is_utf8 (prints value) (suc fuel) capacity s ≡ meta_utf8 is_utf8 value s
  unfolding extract_meta_string meta_result prints
  fits-value fuel capacity s h =
      ground (arith, written_of-small value capacity, meta_fits-value capacity s h)

  -- The value of a key is given whole, whatever its length: two calls are enough.
  extract_meta_string-value :
      (fuel capacity : ℕ) (s : S)
      → 2 ≤ fuel
      → extract_meta_string is_utf8 (prints value) fuel capacity s ≡ meta_utf8 is_utf8 value s
  extract_meta_string-value zero capacity s h = absurd (omega arith)
  extract_meta_string-value (suc zero) capacity s h = absurd (omega arith)
  extract_meta_string-value (suc (suc fuel)) capacity s h =
      elim (Bool-cases (leb capacity (length value))) [
        | inr fits ↦ fits-value (suc fuel) capacity s (ground (arith, fits))
        | inl short ↦
            let again = fits-value fuel (length value + 1) s (omega arith) in
            unfold extract_meta_string meta_result prints in
            ground (arith, written_of-small value capacity, again, short)
      ]
