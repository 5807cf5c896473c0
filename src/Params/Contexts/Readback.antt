-- ===== src/Params/Contexts/Readback.antt =====
-- context/params/get_set.rs: the typed parameters of a context, set and read.
use llama_cpp_rs.Prelude.{
  ℕ, zero, suc, ◌≡◌, ◌≢◌, refl, List, [], ◌∷◌, All, ◌==◌, ==_iff, arith, Bool-cases, inl, inr, map,
  ap, ◌∙◌,
}
use llama_cpp_rs.Params.Contexts.{
  RopeScalingType, rope_scaling_from, rope_scaling_into, LlamaPoolingType, pooling_from,
  pooling_into, LlamaAttentionType, attention_from, attention_into, LlamaContextType, ContextTypes,
  context_type_from, context_type_into, KvCacheType, GgmlTypes, ggml_type_of, cache_arms, first_arm,
  cache_type_from,
}
use llama_cpp_rs.Params.Contexts.Settings.{
  LlamaContextParams, nonzero, with_n_ctx, n_ctx, with_context_type, context_type,
  with_rope_scaling_type, rope_scaling_type, with_pooling_type, pooling_type, with_attention_type,
  attention_type, with_type_k, type_k, with_type_v, type_v,
}

rope_back : (t : RopeScalingType) → rope_scaling_from (rope_scaling_into t) ≡ t
unfolding rope_scaling_from rope_scaling_into
rope_back RopeScalingType.unspecified = refl
rope_back RopeScalingType.none_ = refl
rope_back RopeScalingType.linear = refl
rope_back RopeScalingType.yarn = refl

pooling_back : (t : LlamaPoolingType) → pooling_from (pooling_into t) ≡ t
unfolding pooling_from pooling_into
pooling_back LlamaPoolingType.unspecified = refl
pooling_back LlamaPoolingType.none_ = refl
pooling_back LlamaPoolingType.mean = refl
pooling_back LlamaPoolingType.cls = refl
pooling_back LlamaPoolingType.last = refl
pooling_back LlamaPoolingType.rank = refl

attention_back : (t : LlamaAttentionType) → attention_from (attention_into t) ≡ t
unfolding attention_from attention_into
attention_back LlamaAttentionType.unspecified = refl
attention_back LlamaAttentionType.causal = refl
attention_back LlamaAttentionType.non_causal = refl

-- A context type that `from` gives: no unknown type has a number of the others.
abbrev pub IsContextType : ContextTypes → LlamaContextType → Type 0
IsContextType c (LlamaContextType.unknown raw) = (raw ≢ c.type_default) × (raw ≢ c.type_mtp)
IsContextType c t = Unit

context_type_back :
    (c : ContextTypes) (t : LlamaContextType)
    → c.type_default ≢ c.type_mtp
    → IsContextType c t
    → context_type_from c (context_type_into c t) ≡ t
unfolding context_type_from context_type_into
context_type_back c LlamaContextType.default d h = ground arith
context_type_back c LlamaContextType.mtp d h = ground (arith, d)
context_type_back c (LlamaContextType.unknown raw) d (p, q) = ground (arith, p, q)

-- The types that are known to the crate.
abbrev pub cache_types : List KvCacheType
cache_types =
    KvCacheType.f32 ∷ KvCacheType.f16 ∷ KvCacheType.q4_0 ∷ KvCacheType.q4_1 ∷ KvCacheType.q5_0
    ∷ KvCacheType.q5_1 ∷ KvCacheType.q8_0 ∷ KvCacheType.q8_1 ∷ KvCacheType.q2_k ∷ KvCacheType.q3_k
    ∷ KvCacheType.q4_k ∷ KvCacheType.q5_k ∷ KvCacheType.q6_k ∷ KvCacheType.q8_k
    ∷ KvCacheType.iq2_xxs ∷ KvCacheType.iq2_xs ∷ KvCacheType.iq3_xxs ∷ KvCacheType.iq1_s
    ∷ KvCacheType.iq4_nl ∷ KvCacheType.iq3_s ∷ KvCacheType.iq2_s ∷ KvCacheType.iq4_xs
    ∷ KvCacheType.i8 ∷ KvCacheType.i16 ∷ KvCacheType.i32 ∷ KvCacheType.i64 ∷ KvCacheType.f64
    ∷ KvCacheType.iq1_m ∷ KvCacheType.bf16 ∷ KvCacheType.tq1_0 ∷ KvCacheType.tq2_0
    ∷ KvCacheType.mxfp4 ∷ []

-- The numbers that the arms test for differ.
abbrev pub AreApart : List (ℕ × KvCacheType) → Type 0
AreApart [] = Unit
AreApart ((n, t) ∷ arms) = All (λ a. a.0 ≢ n) arms × AreApart arms

abbrev pub AreNumbers : GgmlTypes → Type 0
AreNumbers ggml = AreApart (cache_arms ggml)

-- What is behind an arm with another number is found behind it.
first_arm_skip :
    (n : ℕ) (t : KvCacheType) (bs arms : List (ℕ × KvCacheType))
    → All (λ a. a.0 ≢ n) bs
    → All (λ a. first_arm a.0 arms ≡ a.1) bs
    → All (λ a. first_arm a.0 ((n, t) ∷ arms) ≡ a.1) bs
unfolding first_arm
first_arm_skip n t [] arms other h = tt
first_arm_skip n t ((m, u) ∷ bs) arms (o, other) (e, h) =
    (ground (arith, e, o, ==_iff m n), first_arm_skip n t bs arms other h)

first_arm_all :
    (arms : List (ℕ × KvCacheType)) → AreApart arms → All (λ a. first_arm a.0 arms ≡ a.1) arms
first_arm_all [] h = tt
first_arm_all ((n, t) ∷ arms) (other, h) =
    (unfold first_arm in ground arith, first_arm_skip n t arms arms other (first_arm_all arms h))

agree_on :
    (f h : ℕ × KvCacheType → ℕ) (arms : List (ℕ × KvCacheType))
    → map f arms ≡ map h arms
    → All (λ a. f a ≡ h a) arms
agree_on f h [] e = tt
agree_on f h (a ∷ arms) e = (ground (arith, e), agree_on f h arms (ground (arith, e)))

module _ (ggml : GgmlTypes) where
  -- Each arm of the one `match` has the number that the other one gives its type.
  arms_agree : All (λ a. ggml_type_of ggml a.1 ≡ a.0) (cache_arms ggml)
  arms_agree =
      agree_on (λ a. ggml_type_of ggml a.1) (λ a. a.0) (cache_arms ggml)
        (unfold cache_arms ggml_type_of in refl)

  first_arm_back :
      (x : ℕ) (arms : List (ℕ × KvCacheType))
      → All (λ a. ggml_type_of ggml a.1 ≡ a.0) arms
      → ggml_type_of ggml (first_arm x arms) ≡ x
  unfolding first_arm
  first_arm_back x [] h = unfold ggml_type_of in refl
  first_arm_back x ((n, t) ∷ arms) (e, h) = elim (Bool-cases (x == n)) [
    | inl found ↦ ground (arith, found, e)
    | inr missed ↦ ground (arith, missed, first_arm_back x arms h)
  ]

  both_ways :
      (bs : List (ℕ × KvCacheType))
      → All (λ a. ggml_type_of ggml a.1 ≡ a.0) bs
      → All (λ a. cache_type_from ggml a.0 ≡ a.1) bs
      → All (λ t. cache_type_from ggml (ggml_type_of ggml t) ≡ t) (map (λ a. a.1) bs)
  both_ways [] h k = tt
  both_ways ((n, t) ∷ bs) (e, h) (f, k) = (ap (cache_type_from ggml) e ∙ f, both_ways bs h k)

  known : AreNumbers ggml → All (λ t. cache_type_from ggml (ggml_type_of ggml t) ≡ t) cache_types
  known law =
      unfold cache_arms in
      both_ways (cache_arms ggml) arms_agree
        (unfold cache_type_from in first_arm_all (cache_arms ggml) law)

-- Where ggml's and llama.cpp's numbers of types differ, each typed parameter is read back as it was set:
-- the size of the context, rope scaling, pooling, attention, a context type that is known or has another
-- number than the known ones, and each of the 32 known types of the cache, for keys and for values. And no
-- number of a cache type is lost by the two conversions, known or not.
pub typed_settings :
    {F : Type 0} (ggml : GgmlTypes) (c : ContextTypes) (p : LlamaContextParams F)
    (context : LlamaContextType)
    → AreNumbers ggml
    → c.type_default ≢ c.type_mtp
    → IsContextType c context
    → ((n : ℕ) → n_ctx (with_n_ctx (nonzero n) p) ≡ nonzero n)
      × ((t : RopeScalingType) → rope_scaling_type (with_rope_scaling_type t p) ≡ t)
      × ((t : LlamaPoolingType) → pooling_type (with_pooling_type t p) ≡ t)
      × ((t : LlamaAttentionType) → attention_type (with_attention_type t p) ≡ t)
      × (context_type c (with_context_type c context p) ≡ context)
      × All (λ t. type_k ggml (with_type_k ggml t p) ≡ t) cache_types
      × All (λ t. type_v ggml (with_type_v ggml t p) ≡ t) cache_types
      × ((x : ℕ) → ggml_type_of ggml (cache_type_from ggml x) ≡ x)
unfolding n_ctx with_n_ctx nonzero rope_scaling_type with_rope_scaling_type pooling_type
    with_pooling_type attention_type with_attention_type context_type with_context_type type_k
    with_type_k type_v with_type_v
typed_settings ggml c p context law apart is = (
  nonzero_back,
  rope_back,
  pooling_back,
  attention_back,
  context_type_back c context apart is,
  known ggml law,
  known ggml law,
  λ x. unfold cache_type_from in first_arm_back ggml x (cache_arms ggml) (arms_agree ggml),
)
  where
    nonzero_back : (n : ℕ) → n_ctx (with_n_ctx (nonzero n) p) ≡ nonzero n
    nonzero_back zero = refl
    nonzero_back (suc n) = refl
