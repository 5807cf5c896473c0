-- ===== src/Params/Contexts.antt =====
-- llama-cpp-2/src/context/params.rs: the types of a context's parameters and their conversions. ggml's and
-- llama.cpp's numbers of cache and context types are parameters.
pub mod Settings
pub mod Readback
use llama_cpp_rs.Prelude.{ℕ, zero, suc, List, [], ◌∷◌, Option, none, some, ◌==◌, if◌then◌else◌, ℤ}

pub data RopeScalingType : Type 0 where
  unspecified none_ linear yarn : RopeScalingType

unfoldable pub rope_scaling_from : ℤ → RopeScalingType
rope_scaling_from (ℤ.negsuc n) = RopeScalingType.unspecified
rope_scaling_from (ℤ.pos n) =
    if n == 0
    then RopeScalingType.none_
    else (if n == 1
        then RopeScalingType.linear
        else (if n == 2 then RopeScalingType.yarn else RopeScalingType.unspecified))

unfoldable pub rope_scaling_into : RopeScalingType → ℤ
rope_scaling_into RopeScalingType.none_ = ℤ.pos 0
rope_scaling_into RopeScalingType.linear = ℤ.pos 1
rope_scaling_into RopeScalingType.yarn = ℤ.pos 2
rope_scaling_into RopeScalingType.unspecified = ℤ.negsuc 0

pub data LlamaPoolingType : Type 0 where
  unspecified none_ mean cls last rank : LlamaPoolingType

unfoldable pub pooling_from : ℤ → LlamaPoolingType
pooling_from (ℤ.negsuc n) = LlamaPoolingType.unspecified
pooling_from (ℤ.pos n) =
    if n == 0
    then LlamaPoolingType.none_
    else (if n == 1
        then LlamaPoolingType.mean
        else (if n == 2
            then LlamaPoolingType.cls
            else (if n == 3
                then LlamaPoolingType.last
                else (if n == 4 then LlamaPoolingType.rank else LlamaPoolingType.unspecified))))

unfoldable pub pooling_into : LlamaPoolingType → ℤ
pooling_into LlamaPoolingType.none_ = ℤ.pos 0
pooling_into LlamaPoolingType.mean = ℤ.pos 1
pooling_into LlamaPoolingType.cls = ℤ.pos 2
pooling_into LlamaPoolingType.last = ℤ.pos 3
pooling_into LlamaPoolingType.rank = ℤ.pos 4
pooling_into LlamaPoolingType.unspecified = ℤ.negsuc 0

pub data LlamaAttentionType : Type 0 where
  unspecified causal non_causal : LlamaAttentionType

unfoldable pub attention_from : ℤ → LlamaAttentionType
attention_from (ℤ.negsuc n) = LlamaAttentionType.unspecified
attention_from (ℤ.pos n) =
    if n == 0
    then LlamaAttentionType.causal
    else (if n == 1 then LlamaAttentionType.non_causal else LlamaAttentionType.unspecified)

unfoldable pub attention_into : LlamaAttentionType → ℤ
attention_into LlamaAttentionType.causal = ℤ.pos 0
attention_into LlamaAttentionType.non_causal = ℤ.pos 1
attention_into LlamaAttentionType.unspecified = ℤ.negsuc 0

pub data LlamaContextType : Type 0 where
  default mtp : LlamaContextType
  unknown : ℕ → LlamaContextType

-- llama.cpp's numbers of the two context types
pub record ContextTypes : Type 0 where
  pub type_default : ℕ
  pub type_mtp : ℕ

unfoldable pub context_type_from : ContextTypes → ℕ → LlamaContextType
context_type_from c x =
    if x == c.type_default
    then LlamaContextType.default
    else (if x == c.type_mtp then LlamaContextType.mtp else LlamaContextType.unknown x)

unfoldable pub context_type_into : ContextTypes → LlamaContextType → ℕ
context_type_into c LlamaContextType.default = c.type_default
context_type_into c LlamaContextType.mtp = c.type_mtp
context_type_into c (LlamaContextType.unknown raw) = raw

pub data KvCacheType : Type 0 where
  unknown : ℕ → KvCacheType
  f32 f16 q4_0 q4_1 q5_0 q5_1 q8_0 q8_1 q2_k q3_k q4_k : KvCacheType
  q5_k q6_k q8_k iq2_xxs iq2_xs iq3_xxs iq1_s iq4_nl iq3_s iq2_s iq4_xs : KvCacheType
  i8 i16 i32 i64 f64 iq1_m bf16 tq1_0 tq2_0 mxfp4 : KvCacheType

-- ggml's numbers of its types
pub record GgmlTypes : Type 0 where
  pub type_f32 : ℕ
  pub type_f16 : ℕ
  pub type_q4_0 : ℕ
  pub type_q4_1 : ℕ
  pub type_q5_0 : ℕ
  pub type_q5_1 : ℕ
  pub type_q8_0 : ℕ
  pub type_q8_1 : ℕ
  pub type_q2_k : ℕ
  pub type_q3_k : ℕ
  pub type_q4_k : ℕ
  pub type_q5_k : ℕ
  pub type_q6_k : ℕ
  pub type_q8_k : ℕ
  pub type_iq2_xxs : ℕ
  pub type_iq2_xs : ℕ
  pub type_iq3_xxs : ℕ
  pub type_iq1_s : ℕ
  pub type_iq4_nl : ℕ
  pub type_iq3_s : ℕ
  pub type_iq2_s : ℕ
  pub type_iq4_xs : ℕ
  pub type_i8 : ℕ
  pub type_i16 : ℕ
  pub type_i32 : ℕ
  pub type_i64 : ℕ
  pub type_f64 : ℕ
  pub type_iq1_m : ℕ
  pub type_bf16 : ℕ
  pub type_tq1_0 : ℕ
  pub type_tq2_0 : ℕ
  pub type_mxfp4 : ℕ

-- `From<KvCacheType>`, arm by arm
unfoldable pub ggml_type_of : GgmlTypes → KvCacheType → ℕ
ggml_type_of g (KvCacheType.unknown raw) = raw
ggml_type_of g KvCacheType.f32 = g.type_f32
ggml_type_of g KvCacheType.f16 = g.type_f16
ggml_type_of g KvCacheType.q4_0 = g.type_q4_0
ggml_type_of g KvCacheType.q4_1 = g.type_q4_1
ggml_type_of g KvCacheType.q5_0 = g.type_q5_0
ggml_type_of g KvCacheType.q5_1 = g.type_q5_1
ggml_type_of g KvCacheType.q8_0 = g.type_q8_0
ggml_type_of g KvCacheType.q8_1 = g.type_q8_1
ggml_type_of g KvCacheType.q2_k = g.type_q2_k
ggml_type_of g KvCacheType.q3_k = g.type_q3_k
ggml_type_of g KvCacheType.q4_k = g.type_q4_k
ggml_type_of g KvCacheType.q5_k = g.type_q5_k
ggml_type_of g KvCacheType.q6_k = g.type_q6_k
ggml_type_of g KvCacheType.q8_k = g.type_q8_k
ggml_type_of g KvCacheType.iq2_xxs = g.type_iq2_xxs
ggml_type_of g KvCacheType.iq2_xs = g.type_iq2_xs
ggml_type_of g KvCacheType.iq3_xxs = g.type_iq3_xxs
ggml_type_of g KvCacheType.iq1_s = g.type_iq1_s
ggml_type_of g KvCacheType.iq4_nl = g.type_iq4_nl
ggml_type_of g KvCacheType.iq3_s = g.type_iq3_s
ggml_type_of g KvCacheType.iq2_s = g.type_iq2_s
ggml_type_of g KvCacheType.iq4_xs = g.type_iq4_xs
ggml_type_of g KvCacheType.i8 = g.type_i8
ggml_type_of g KvCacheType.i16 = g.type_i16
ggml_type_of g KvCacheType.i32 = g.type_i32
ggml_type_of g KvCacheType.i64 = g.type_i64
ggml_type_of g KvCacheType.f64 = g.type_f64
ggml_type_of g KvCacheType.iq1_m = g.type_iq1_m
ggml_type_of g KvCacheType.bf16 = g.type_bf16
ggml_type_of g KvCacheType.tq1_0 = g.type_tq1_0
ggml_type_of g KvCacheType.tq2_0 = g.type_tq2_0
ggml_type_of g KvCacheType.mxfp4 = g.type_mxfp4

-- The arms of the opposite `match`, in their order: the number that an arm tests for, and its type.
unfoldable pub cache_arms : GgmlTypes → List (ℕ × KvCacheType)
cache_arms g =
    (g.type_f32, KvCacheType.f32)
    ∷ (g.type_f16, KvCacheType.f16)
    ∷ (g.type_q4_0, KvCacheType.q4_0)
    ∷ (g.type_q4_1, KvCacheType.q4_1)
    ∷ (g.type_q5_0, KvCacheType.q5_0)
    ∷ (g.type_q5_1, KvCacheType.q5_1)
    ∷ (g.type_q8_0, KvCacheType.q8_0)
    ∷ (g.type_q8_1, KvCacheType.q8_1)
    ∷ (g.type_q2_k, KvCacheType.q2_k)
    ∷ (g.type_q3_k, KvCacheType.q3_k)
    ∷ (g.type_q4_k, KvCacheType.q4_k)
    ∷ (g.type_q5_k, KvCacheType.q5_k)
    ∷ (g.type_q6_k, KvCacheType.q6_k)
    ∷ (g.type_q8_k, KvCacheType.q8_k)
    ∷ (g.type_iq2_xxs, KvCacheType.iq2_xxs)
    ∷ (g.type_iq2_xs, KvCacheType.iq2_xs)
    ∷ (g.type_iq3_xxs, KvCacheType.iq3_xxs)
    ∷ (g.type_iq1_s, KvCacheType.iq1_s)
    ∷ (g.type_iq4_nl, KvCacheType.iq4_nl)
    ∷ (g.type_iq3_s, KvCacheType.iq3_s)
    ∷ (g.type_iq2_s, KvCacheType.iq2_s)
    ∷ (g.type_iq4_xs, KvCacheType.iq4_xs)
    ∷ (g.type_i8, KvCacheType.i8)
    ∷ (g.type_i16, KvCacheType.i16)
    ∷ (g.type_i32, KvCacheType.i32)
    ∷ (g.type_i64, KvCacheType.i64)
    ∷ (g.type_f64, KvCacheType.f64)
    ∷ (g.type_iq1_m, KvCacheType.iq1_m)
    ∷ (g.type_bf16, KvCacheType.bf16)
    ∷ (g.type_tq1_0, KvCacheType.tq1_0)
    ∷ (g.type_tq2_0, KvCacheType.tq2_0)
    ∷ (g.type_mxfp4, KvCacheType.mxfp4)
    ∷ []

-- the first arm whose number is `x`, and the last arm
unfoldable pub first_arm : ℕ → List (ℕ × KvCacheType) → KvCacheType
first_arm x [] = KvCacheType.unknown x
first_arm x ((n, t) ∷ arms) = let rest = first_arm x arms in if x == n then t else rest

unfoldable pub cache_type_from : GgmlTypes → ℕ → KvCacheType
cache_type_from g x = first_arm x (cache_arms g)
