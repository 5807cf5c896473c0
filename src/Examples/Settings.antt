-- ===== src/Examples/Settings.antt =====
-- Runs of llama-cpp-2/src/model/params.rs, and of the parameters of contexts. ggml's numbers of its
-- types are those of its header.
use llama_cpp_rs.Prelude.{
  ℕ, ◌≡◌, ◌≢◌, ◌≤◌, ◌<◌, refl, Bool, true, false, not, ◌&&◌, ◌||◌, ◌+◌, ==_iff, List, [], ◌∷◌, ◌++◌,
  Option, none, some, map, replicate, ◌==◌, arith, All, ℤ,
}
use llama_cpp_rs.Prelude.Text.{Text}
use llama_cpp_rs.Params.{LlamaModelParams, llama_cpp_max_devices}
use llama_cpp_rs.Params.Devices.{
  Backends, with_devices, devices, assigned, assign, set_devices, min,
}
use llama_cpp_rs.Params.Devices.Selected.{AreHandles, with_devices-devices}
use llama_cpp_rs.Params.Overrides.{Tags}
use llama_cpp_rs.Params.Contexts.{
  RopeScalingType, LlamaPoolingType, LlamaAttentionType, LlamaContextType, ContextTypes,
  KvCacheType, GgmlTypes, cache_arms, ggml_type_of, cache_type_from,
}
use llama_cpp_rs.Params.Contexts.Settings.{
  LlamaContextParams, nonzero, n_ctx, with_n_ctx, rope_scaling_type, with_rope_scaling_type,
  pooling_type, with_pooling_type, attention_type, with_attention_type, context_type,
  with_context_type, type_k, with_type_k, type_v, with_type_v,
}
use llama_cpp_rs.Params.Contexts.Readback.{cache_types, typed_settings, AreApart, AreNumbers}

-- Three devices, with the handles 10, 11 and 12.
abbrev three : Backends
three = record { dev_count = 3; dev_get = λ i. some (i + 10); max_devices = 16 }

plus_inj : (i j : ℕ) → i + 10 ≡ j + 10 → i ≡ j
plus_inj i j e = omega arith

abbrev three-AreHandles : AreHandles three
three-AreHandles = record {
  handle = λ i. i + 10;
  gets = λ i h. refl;
  apart = λ i j h k e. plus_inj i j e;
}

abbrev model : List (Option ℕ) → Bool → LlamaModelParams
model slots passes = record {
  n_gpu_layers = ℤ.pos 0;
  main_gpu = ℤ.pos 0;
  vocab_only = false;
  load_mode = 0;
  split_mode = 0;
  no_alloc = false;
  devices = slots;
  passes_devices = passes;
}

abbrev unselected : LlamaModelParams
unselected = model (replicate 16 none) false

abbrev selected : LlamaModelParams
selected = model (some 12 ∷ some 10 ∷ replicate 14 none) true

with_devices-devices_example :
    (2 ≤ llama_cpp_max_devices)
    × All (λ d. d < 3) (2 ∷ 0 ∷ [])
    × (devices three selected ≡ 2 ∷ 0 ∷ [])
    × (selected.devices ≡ map (λ d. some (d + 10)) (2 ∷ 0 ∷ []) ++ replicate 14 none)
with_devices-devices_example =
    with_devices-devices three three-AreHandles (2 ∷ 0 ∷ []) unselected selected
      (unfold with_devices assigned assign set_devices min in refl)

abbrev tags : Tags
tags = record { tag_int = 0; tag_float = 1; tag_bool = 2; tag_str = 3 }

abbrev key : Text
key = b'k' ∷ b'e' ∷ b'y' ∷ []

abbrev numbers : GgmlTypes
numbers = record {
  type_f32 = 0;
  type_f16 = 1;
  type_q4_0 = 2;
  type_q4_1 = 3;
  type_q5_0 = 6;
  type_q5_1 = 7;
  type_q8_0 = 8;
  type_q8_1 = 9;
  type_q2_k = 10;
  type_q3_k = 11;
  type_q4_k = 12;
  type_q5_k = 13;
  type_q6_k = 14;
  type_q8_k = 15;
  type_iq2_xxs = 16;
  type_iq2_xs = 17;
  type_iq3_xxs = 18;
  type_iq1_s = 19;
  type_iq4_nl = 20;
  type_iq3_s = 21;
  type_iq2_s = 22;
  type_iq4_xs = 23;
  type_i8 = 24;
  type_i16 = 25;
  type_i32 = 26;
  type_i64 = 27;
  type_f64 = 28;
  type_iq1_m = 29;
  type_bf16 = 30;
  type_tq1_0 = 34;
  type_tq2_0 = 35;
  type_mxfp4 = 39;
}

has_number : ℕ → List (ℕ × KvCacheType) → Bool
has_number n [] = false
has_number n ((m, u) ∷ arms) = (m == n) || has_number n arms

all_apart : List (ℕ × KvCacheType) → Bool
all_apart [] = true
all_apart ((n, t) ∷ arms) = not (has_number n arms) && all_apart arms

has_number-other :
    (n : ℕ) (arms : List (ℕ × KvCacheType)) → has_number n arms ≡ false → All (λ a. a.0 ≢ n) arms
unfolding has_number
has_number-other n [] h = tt
has_number-other n ((m, u) ∷ arms) h = ground (arith, has_number-other n arms, ==_iff m n)

all_apart-AreApart : (arms : List (ℕ × KvCacheType)) → all_apart arms ≡ true → AreApart arms
unfolding all_apart
all_apart-AreApart [] h = tt
all_apart-AreApart ((n, t) ∷ arms) h =
    ground (arith, has_number-other n arms, all_apart-AreApart arms)

numbers-AreNumbers : AreNumbers numbers
unfolding all_apart has_number cache_arms
numbers-AreNumbers = all_apart-AreApart (cache_arms numbers) refl

abbrev types : ContextTypes
types = record { type_default = 0; type_mtp = 1 }

abbrev context : LlamaContextParams ℕ
context = record {
  n_ctx = 512;
  n_batch = 2048;
  n_ubatch = 512;
  n_seq_max = 1;
  n_rs_seq = 0;
  ctx_type = 0;
  n_threads = ℤ.pos 4;
  n_threads_batch = ℤ.pos 4;
  rope_scaling_type = ℤ.negsuc 0;
  pooling_type = ℤ.negsuc 0;
  attention_type = ℤ.negsuc 0;
  flash_attn_type = ℤ.negsuc 0;
  rope_freq_base = 0;
  rope_freq_scale = 0;
  yarn_ext_factor = 0;
  yarn_attn_factor = 0;
  yarn_beta_fast = 0;
  yarn_beta_slow = 0;
  yarn_orig_ctx = 0;
  defrag_thold = 0;
  type_k = 1;
  type_v = 1;
  embeddings = false;
  offload_kqv = true;
  no_perf = true;
  op_offload = true;
  swa_full = true;
  kv_unified = false;
}

typed_settings_example :
    ((n : ℕ) → n_ctx (with_n_ctx (nonzero n) context) ≡ nonzero n)
    × ((t : RopeScalingType) → rope_scaling_type (with_rope_scaling_type t context) ≡ t)
    × ((t : LlamaPoolingType) → pooling_type (with_pooling_type t context) ≡ t)
    × ((t : LlamaAttentionType) → attention_type (with_attention_type t context) ≡ t)
    × (context_type types (with_context_type types (LlamaContextType.unknown 7) context)
        ≡ LlamaContextType.unknown 7)
    × All (λ t. type_k numbers (with_type_k numbers t context) ≡ t) cache_types
    × All (λ t. type_v numbers (with_type_v numbers t context) ≡ t) cache_types
    × ((x : ℕ) → ggml_type_of numbers (cache_type_from numbers x) ≡ x)
typed_settings_example =
    typed_settings numbers types context (LlamaContextType.unknown 7) numbers-AreNumbers
      (λ e. ground (arith, e)) ((λ e. ground (arith, e)), (λ e. ground (arith, e)))
