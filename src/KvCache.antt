-- ===== src/KvCache.antt =====
-- llama-cpp-2/src/context/kv_cache.rs: the operations on llama.cpp's memory, with the conversion of
-- their optional positions. The memory itself and llama.cpp's operations on it are parameters.
pub mod Ranges
use llama_cpp_rs.Prelude.{ℕ, Bool, true, false, Option, none, some, ℤ, to_i32, if◌then◌else◌}
use llama_cpp_rs.Prelude.Result.{Result}
use llama_cpp_rs.Prelude.Run.{Run, ok, err, panic, fault, Method, ◌>>=◌, ◌>>◌, or_throw, gets, pure}

-- A failed `try_from` carries no data of its own.
pub data KvCacheConversionError : Type 0 where
  seq_id_too_large p0_too_large p1_too_large : KvCacheConversionError
  partial_sequence_removal_failed : ℤ → ℤ → KvCacheConversionError

-- llama.cpp's `llama_memory_*`
pub record MemoryApi (S : Type 0) : Type 0 where
  pub seq_cp : ℤ → ℤ → ℤ → ℤ → S → S
  pub seq_rm : ℤ → ℤ → ℤ → S → Bool × S
  pub memory_clear : Bool → S → S
  pub seq_keep : ℤ → S → S
  pub seq_add : ℤ → ℤ → ℤ → ℤ → S → S
  pub seq_div : ℤ → ℤ → ℤ → ℤ → S → S
  pub seq_pos_min : ℤ → S → ℤ
  pub seq_pos_max : ℤ → S → ℤ

-- `map_or(Ok(-1), i32::try_from)`
unfoldable pub bound : Option ℕ → Option ℤ
bound none = some (ℤ.negsuc 0)
bound (some n) = to_i32 n

module _ {S : Type 0} where
  -- a call of llama.cpp that returns nothing
  unfoldable pub modify : (S → S) → Method S KvCacheConversionError (Unit {0})
  modify f s = ok tt (f s)

  unfoldable pub with_range :
      {A : Type 0}
      → Option ℕ
      → Option ℕ
      → (ℤ → ℤ → Method S KvCacheConversionError A)
      → Method S KvCacheConversionError A
  with_range p0 p1 f = or_throw p0_too_large (bound p0) >>= λ start.
      or_throw p1_too_large (bound p1) >>= λ end. f start end

module _ {S : Type 0} (memory : MemoryApi S) where
  unfoldable pub copy_cache : ℤ → ℤ → ℤ → S → S
  copy_cache src dest size s = memory.seq_cp src dest (ℤ.pos 0) size s

  unfoldable pub copy_kv_cache_seq :
      ℤ → ℤ → Option ℕ → Option ℕ → Method S KvCacheConversionError (Unit {0})
  copy_kv_cache_seq src dest p0 p1 =
      with_range p0 p1 λ start end. modify (memory.seq_cp src dest start end)

  -- `Ok` of what llama.cpp answers
  unfoldable pub answered : Bool × S → Run S KvCacheConversionError Bool
  answered (done, s) = ok done s

  unfoldable pub clear_kv_cache_seq :
      Option ℕ → Option ℕ → Option ℕ → Method S KvCacheConversionError Bool
  clear_kv_cache_seq src p0 p1 = or_throw seq_id_too_large (bound src) >>= λ seq.
      with_range p0 p1 λ start end s. answered (memory.seq_rm seq start end s)

  unfoldable pub clear_kv_cache : S → S
  clear_kv_cache s = memory.memory_clear true s

  unfoldable pub llama_kv_cache_seq_keep : ℤ → S → S
  llama_kv_cache_seq_keep seq_id s = memory.seq_keep seq_id s

  unfoldable pub kv_cache_seq_cp :
      ℤ → ℤ → Option ℕ → Option ℕ → Method S KvCacheConversionError (Unit {0})
  kv_cache_seq_cp seq_id_src seq_id_dst p0 p1 =
      with_range p0 p1 λ start end. modify (memory.seq_cp seq_id_src seq_id_dst start end)

  unfoldable pub kv_cache_seq_add :
      ℤ → Option ℕ → Option ℕ → ℤ → Method S KvCacheConversionError (Unit {0})
  kv_cache_seq_add seq_id p0 p1 delta =
      with_range p0 p1 λ start end. modify (memory.seq_add seq_id start end delta)

  -- the `if` on llama.cpp's answer
  unfoldable pub removed : ℤ → ℤ → Bool × S → Run S KvCacheConversionError (Unit {0})
  removed start end (done, s) =
      if done then ok tt s else err (partial_sequence_removal_failed start end) s

  unfoldable pub kv_cache_seq_rm :
      ℤ → Option ℕ → Option ℕ → Method S KvCacheConversionError (Unit {0})
  kv_cache_seq_rm seq_id p0 p1 =
      with_range p0 p1 λ start end s. removed start end (memory.seq_rm seq_id start end s)

  -- `d` is a `NonZeroU8`.
  unfoldable pub kv_cache_seq_div :
      ℤ → Option ℕ → Option ℕ → ℕ → Method S KvCacheConversionError (Unit {0})
  kv_cache_seq_div seq_id p0 p1 d =
      with_range p0 p1 λ start end. modify (memory.seq_div seq_id start end (ℤ.pos d))

  unfoldable pub kv_cache_seq_pos_min : ℤ → S → ℤ
  kv_cache_seq_pos_min seq_id s = memory.seq_pos_min seq_id s

  unfoldable pub kv_cache_seq_pos_max : ℤ → S → ℤ
  kv_cache_seq_pos_max seq_id s = memory.seq_pos_max seq_id s
