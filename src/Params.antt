-- ===== src/Params.antt =====
-- llama-cpp-2/src/model/params.rs: the parameters of a model. llama.cpp's constants are parameters, and a
-- device is its handle, where a null pointer is none.
pub mod Flags
pub mod Devices
pub mod Overrides
pub mod Splits
pub mod Contexts
use llama_cpp_rs.Prelude.{
  ℕ, zero, suc, ◌+◌, ◌-◌, Bool, true, false, not, ◌||◌, ◌&&◌, List, [], ◌∷◌, Option, none, some,
  length, replicate, set, ltb, leb, ◌==◌, if◌then◌else◌, ℤ, i32_limit,
}
use llama_cpp_rs.Prelude.Result.{Result, ok, err}

abbrev pub llama_cpp_max_devices : ℕ
llama_cpp_max_devices = 16

-- llama.cpp's load modes
pub record LoadModes : Type 0 where
  pub mode_none : ℕ
  pub mode_mmap : ℕ
  pub mode_mlock : ℕ
  pub mode_mmap_mlock : ℕ

unfoldable pub load_mode_from_flags : LoadModes → Bool → Bool → ℕ
load_mode_from_flags m false false = m.mode_none
load_mode_from_flags m true false = m.mode_mmap
load_mode_from_flags m false true = m.mode_mlock
load_mode_from_flags m true true = m.mode_mmap_mlock

-- the fields of `llama_model_params` that the methods read and write, and the array of devices
pub record LlamaModelParams : Type 0 where
  pub n_gpu_layers : ℤ
  pub main_gpu : ℤ
  pub vocab_only : Bool
  pub load_mode : ℕ
  pub split_mode : ℕ
  pub no_alloc : Bool
  pub devices : List (Option ℕ)
  pub passes_devices : Bool

-- `default`, with the fields that llama.cpp gives
unfoldable pub default : LlamaModelParams → LlamaModelParams
default p = record p { devices = replicate llama_cpp_max_devices none }

unfoldable pub set_load_mode : ℕ → LlamaModelParams → LlamaModelParams
set_load_mode mode p = record p { load_mode = mode }

-- `i32::try_from(n_gpu_layers).unwrap_or(i32::MAX)`
unfoldable pub saturated_i32 : ℕ → ℤ
saturated_i32 n = if ltb n i32_limit then ℤ.pos n else ℤ.pos (i32_limit - 1)

unfoldable pub with_n_gpu_layers : ℕ → LlamaModelParams → LlamaModelParams
with_n_gpu_layers n p = record p { n_gpu_layers = saturated_i32 n }

unfoldable pub with_main_gpu : ℤ → LlamaModelParams → LlamaModelParams
with_main_gpu main_gpu p = record p { main_gpu = main_gpu }

unfoldable pub with_vocab_only : Bool → LlamaModelParams → LlamaModelParams
with_vocab_only vocab_only p = record p { vocab_only = vocab_only }

unfoldable pub set_no_alloc : Bool → LlamaModelParams → LlamaModelParams
set_no_alloc no_alloc p = record p { no_alloc = no_alloc }

unfoldable pub set_split_mode : ℕ → LlamaModelParams → LlamaModelParams
set_split_mode mode p = record p { split_mode = mode }

module _ (m : LoadModes) where
  unfoldable pub use_mmap : LlamaModelParams → Bool
  use_mmap p = (p.load_mode == m.mode_mmap) || (p.load_mode == m.mode_mmap_mlock)

  unfoldable pub use_mlock : LlamaModelParams → Bool
  use_mlock p = (p.load_mode == m.mode_mlock) || (p.load_mode == m.mode_mmap_mlock)

  unfoldable pub with_use_mmap : Bool → LlamaModelParams → LlamaModelParams
  with_use_mmap b p = set_load_mode (load_mode_from_flags m b (use_mlock p)) p

  unfoldable pub with_use_mlock : Bool → LlamaModelParams → LlamaModelParams
  with_use_mlock b p = set_load_mode (load_mode_from_flags m (use_mmap p) b) p

  unfoldable pub with_no_alloc : Bool → LlamaModelParams → LlamaModelParams
  with_no_alloc no_alloc p =
      let q = set_no_alloc no_alloc p in if no_alloc then with_use_mmap false q else q
