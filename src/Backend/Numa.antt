-- ===== src/Backend/Numa.antt =====
-- The conversions of `NumaStrategy` against each other.
use llama_cpp_rs.Prelude.{ℕ, ◌≡◌, ◌≢◌, arith, ◌↔◌, [], ◌∷◌, All}
use llama_cpp_rs.Prelude.Result.{Result}
use llama_cpp_rs.Backend.{NumaStrategy, NumaConstants, try_from, from}

-- The constants are six different numbers.
pub record AreDistinct (k : NumaConstants) : Type 0 where
  pub disabled :
      All
        (λ n. n ≢ k.ggml_disabled)
        (k.ggml_distribute ∷ k.ggml_isolate ∷ k.ggml_numactl ∷ k.ggml_mirror ∷ k.ggml_count ∷ [])
  pub distribute :
      All
        (λ n. n ≢ k.ggml_distribute)
        (k.ggml_isolate ∷ k.ggml_numactl ∷ k.ggml_mirror ∷ k.ggml_count ∷ [])
  pub isolate : All (λ n. n ≢ k.ggml_isolate) (k.ggml_numactl ∷ k.ggml_mirror ∷ k.ggml_count ∷ [])
  pub numactl : All (λ n. n ≢ k.ggml_numactl) (k.ggml_mirror ∷ k.ggml_count ∷ [])
  pub mirror : k.ggml_count ≢ k.ggml_mirror

module _ (k : NumaConstants) where
  try_from-from : AreDistinct k → (s : NumaStrategy) → try_from k (from k s) ≡ Result.ok s
  unfolding try_from from
  try_from-from d NumaStrategy.disabled = ground arith
  try_from-from d NumaStrategy.distribute = ground (arith, d.disabled)
  try_from-from d NumaStrategy.isolate = ground (arith, d.disabled, d.distribute)
  try_from-from d NumaStrategy.numactl = ground (arith, d.disabled, d.distribute, d.isolate)
  try_from-from d NumaStrategy.mirror =
      ground (arith, d.disabled, d.distribute, d.isolate, d.numactl)
  try_from-from d NumaStrategy.count =
      ground (arith, d.disabled, d.distribute, d.isolate, d.numactl, d.mirror)

  from-try_from : (n : ℕ) (s : NumaStrategy) → try_from k n ≡ Result.ok s → from k s ≡ n
  unfolding try_from from
  from-try_from n NumaStrategy.disabled h = ground arith
  from-try_from n NumaStrategy.distribute h = ground arith
  from-try_from n NumaStrategy.isolate h = ground arith
  from-try_from n NumaStrategy.numactl h = ground arith
  from-try_from n NumaStrategy.mirror h = ground arith
  from-try_from n NumaStrategy.count h = ground arith

  -- Where llama.cpp's constants are six different numbers, a number is converted to a strategy exactly
  -- when the strategy is converted to that number.
  try_from_iff :
      AreDistinct k → (n : ℕ) (s : NumaStrategy) → (try_from k n ≡ Result.ok s) ↔ (from k s ≡ n)
  try_from_iff d n s = (from-try_from n s, λ e. ground (arith, e, try_from-from d s))
