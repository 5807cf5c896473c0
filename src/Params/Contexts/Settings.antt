-- ===== src/Params/Contexts/Settings.antt =====
-- llama-cpp-2/src/context/params/get_set.rs: the setters and getters of a context's parameters. A float is a
-- type parameter.
use llama_cpp_rs.Prelude.{ℕ, zero, suc, Bool, Option, none, some, ℤ}
use llama_cpp_rs.Params.Contexts.{
  RopeScalingType, rope_scaling_from, rope_scaling_into, LlamaPoolingType, pooling_from,
  pooling_into, LlamaAttentionType, attention_from, attention_into, LlamaContextType, ContextTypes,
  context_type_from, context_type_into, KvCacheType, GgmlTypes, ggml_type_of, cache_type_from,
}

pub record LlamaContextParams (F : Type 0) : Type 0 where
  pub n_ctx : ℕ
  pub n_batch : ℕ
  pub n_ubatch : ℕ
  pub n_seq_max : ℕ
  pub n_rs_seq : ℕ
  pub ctx_type : ℕ
  pub n_threads : ℤ
  pub n_threads_batch : ℤ
  pub rope_scaling_type : ℤ
  pub pooling_type : ℤ
  pub attention_type : ℤ
  pub flash_attn_type : ℤ
  pub rope_freq_base : F
  pub rope_freq_scale : F
  pub yarn_ext_factor : F
  pub yarn_attn_factor : F
  pub yarn_beta_fast : F
  pub yarn_beta_slow : F
  pub yarn_orig_ctx : ℕ
  pub defrag_thold : F
  pub type_k : ℕ
  pub type_v : ℕ
  pub embeddings : Bool
  pub offload_kqv : Bool
  pub no_perf : Bool
  pub op_offload : Bool
  pub swa_full : Bool
  pub kv_unified : Bool

-- `NonZeroU32::new`
unfoldable pub nonzero : ℕ → Option ℕ
nonzero zero = none
nonzero (suc n) = some (suc n)

module _ {F : Type 0} where
  -- `n_ctx.map_or(0, NonZeroU32::get)`
  unfoldable pub with_n_ctx : Option ℕ → LlamaContextParams F → LlamaContextParams F
  with_n_ctx none p = record p { n_ctx = 0 }
  with_n_ctx (some n) p = record p { n_ctx = n }

  unfoldable pub n_ctx : LlamaContextParams F → Option ℕ
  n_ctx p = nonzero p.n_ctx

  unfoldable pub with_context_type :
      ContextTypes → LlamaContextType → LlamaContextParams F → LlamaContextParams F
  with_context_type c context_type p = record p { ctx_type = context_type_into c context_type }

  unfoldable pub context_type : ContextTypes → LlamaContextParams F → LlamaContextType
  context_type c p = context_type_from c p.ctx_type

  unfoldable pub with_rope_scaling_type :
      RopeScalingType → LlamaContextParams F → LlamaContextParams F
  with_rope_scaling_type t p = record p { rope_scaling_type = rope_scaling_into t }

  unfoldable pub rope_scaling_type : LlamaContextParams F → RopeScalingType
  rope_scaling_type p = rope_scaling_from p.rope_scaling_type

  unfoldable pub with_pooling_type : LlamaPoolingType → LlamaContextParams F → LlamaContextParams F
  with_pooling_type t p = record p { pooling_type = pooling_into t }

  unfoldable pub pooling_type : LlamaContextParams F → LlamaPoolingType
  pooling_type p = pooling_from p.pooling_type

  unfoldable pub with_attention_type :
      LlamaAttentionType → LlamaContextParams F → LlamaContextParams F
  with_attention_type t p = record p { attention_type = attention_into t }

  unfoldable pub attention_type : LlamaContextParams F → LlamaAttentionType
  attention_type p = attention_from p.attention_type

  unfoldable pub with_type_k : GgmlTypes → KvCacheType → LlamaContextParams F → LlamaContextParams F
  with_type_k ggml t p = record p { type_k = ggml_type_of ggml t }

  unfoldable pub type_k : GgmlTypes → LlamaContextParams F → KvCacheType
  type_k ggml p = cache_type_from ggml p.type_k

  unfoldable pub with_type_v : GgmlTypes → KvCacheType → LlamaContextParams F → LlamaContextParams F
  with_type_v ggml t p = record p { type_v = ggml_type_of ggml t }

  unfoldable pub type_v : GgmlTypes → LlamaContextParams F → KvCacheType
  type_v ggml p = cache_type_from ggml p.type_v

  unfoldable pub with_n_batch : ℕ → LlamaContextParams F → LlamaContextParams F
  with_n_batch value p = record p { n_batch = value }

  unfoldable pub n_batch : LlamaContextParams F → ℕ
  n_batch p = p.n_batch

  unfoldable pub with_n_ubatch : ℕ → LlamaContextParams F → LlamaContextParams F
  with_n_ubatch value p = record p { n_ubatch = value }

  unfoldable pub n_ubatch : LlamaContextParams F → ℕ
  n_ubatch p = p.n_ubatch

  unfoldable pub with_n_seq_max : ℕ → LlamaContextParams F → LlamaContextParams F
  with_n_seq_max value p = record p { n_seq_max = value }

  unfoldable pub n_seq_max : LlamaContextParams F → ℕ
  n_seq_max p = p.n_seq_max

  unfoldable pub with_n_rs_seq : ℕ → LlamaContextParams F → LlamaContextParams F
  with_n_rs_seq value p = record p { n_rs_seq = value }

  unfoldable pub n_rs_seq : LlamaContextParams F → ℕ
  n_rs_seq p = p.n_rs_seq

  unfoldable pub with_n_threads : ℤ → LlamaContextParams F → LlamaContextParams F
  with_n_threads value p = record p { n_threads = value }

  unfoldable pub n_threads : LlamaContextParams F → ℤ
  n_threads p = p.n_threads

  unfoldable pub with_n_threads_batch : ℤ → LlamaContextParams F → LlamaContextParams F
  with_n_threads_batch value p = record p { n_threads_batch = value }

  unfoldable pub n_threads_batch : LlamaContextParams F → ℤ
  n_threads_batch p = p.n_threads_batch

  unfoldable pub with_flash_attention_policy : ℤ → LlamaContextParams F → LlamaContextParams F
  with_flash_attention_policy value p = record p { flash_attn_type = value }

  unfoldable pub flash_attention_policy : LlamaContextParams F → ℤ
  flash_attention_policy p = p.flash_attn_type

  unfoldable pub with_rope_freq_base : F → LlamaContextParams F → LlamaContextParams F
  with_rope_freq_base value p = record p { rope_freq_base = value }

  unfoldable pub rope_freq_base : LlamaContextParams F → F
  rope_freq_base p = p.rope_freq_base

  unfoldable pub with_rope_freq_scale : F → LlamaContextParams F → LlamaContextParams F
  with_rope_freq_scale value p = record p { rope_freq_scale = value }

  unfoldable pub rope_freq_scale : LlamaContextParams F → F
  rope_freq_scale p = p.rope_freq_scale

  unfoldable pub with_yarn_ext_factor : F → LlamaContextParams F → LlamaContextParams F
  with_yarn_ext_factor value p = record p { yarn_ext_factor = value }

  unfoldable pub yarn_ext_factor : LlamaContextParams F → F
  yarn_ext_factor p = p.yarn_ext_factor

  unfoldable pub with_yarn_attn_factor : F → LlamaContextParams F → LlamaContextParams F
  with_yarn_attn_factor value p = record p { yarn_attn_factor = value }

  unfoldable pub yarn_attn_factor : LlamaContextParams F → F
  yarn_attn_factor p = p.yarn_attn_factor

  unfoldable pub with_yarn_beta_fast : F → LlamaContextParams F → LlamaContextParams F
  with_yarn_beta_fast value p = record p { yarn_beta_fast = value }

  unfoldable pub yarn_beta_fast : LlamaContextParams F → F
  yarn_beta_fast p = p.yarn_beta_fast

  unfoldable pub with_yarn_beta_slow : F → LlamaContextParams F → LlamaContextParams F
  with_yarn_beta_slow value p = record p { yarn_beta_slow = value }

  unfoldable pub yarn_beta_slow : LlamaContextParams F → F
  yarn_beta_slow p = p.yarn_beta_slow

  unfoldable pub with_yarn_orig_ctx : ℕ → LlamaContextParams F → LlamaContextParams F
  with_yarn_orig_ctx value p = record p { yarn_orig_ctx = value }

  unfoldable pub yarn_orig_ctx : LlamaContextParams F → ℕ
  yarn_orig_ctx p = p.yarn_orig_ctx

  unfoldable pub with_defrag_thold : F → LlamaContextParams F → LlamaContextParams F
  with_defrag_thold value p = record p { defrag_thold = value }

  unfoldable pub defrag_thold : LlamaContextParams F → F
  defrag_thold p = p.defrag_thold

  unfoldable pub with_embeddings : Bool → LlamaContextParams F → LlamaContextParams F
  with_embeddings value p = record p { embeddings = value }

  unfoldable pub embeddings : LlamaContextParams F → Bool
  embeddings p = p.embeddings

  unfoldable pub with_offload_kqv : Bool → LlamaContextParams F → LlamaContextParams F
  with_offload_kqv value p = record p { offload_kqv = value }

  unfoldable pub offload_kqv : LlamaContextParams F → Bool
  offload_kqv p = p.offload_kqv

  unfoldable pub with_no_perf : Bool → LlamaContextParams F → LlamaContextParams F
  with_no_perf value p = record p { no_perf = value }

  unfoldable pub no_perf : LlamaContextParams F → Bool
  no_perf p = p.no_perf

  unfoldable pub with_op_offload : Bool → LlamaContextParams F → LlamaContextParams F
  with_op_offload value p = record p { op_offload = value }

  unfoldable pub op_offload : LlamaContextParams F → Bool
  op_offload p = p.op_offload

  unfoldable pub with_swa_full : Bool → LlamaContextParams F → LlamaContextParams F
  with_swa_full value p = record p { swa_full = value }

  unfoldable pub swa_full : LlamaContextParams F → Bool
  swa_full p = p.swa_full

  unfoldable pub with_kv_unified : Bool → LlamaContextParams F → LlamaContextParams F
  with_kv_unified value p = record p { kv_unified = value }

  unfoldable pub kv_unified : LlamaContextParams F → Bool
  kv_unified p = p.kv_unified
