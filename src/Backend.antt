-- ===== src/Backend.antt =====
-- llama-cpp-2/src/llama_backend.rs: the one backend of the process. The flag is a global; the calls of
-- llama.cpp are listed in order, and its constants are parameters.
pub mod Lifetime
pub mod Numa
use llama_cpp_rs.Prelude.{ℕ, suc, Bool, true, false, List, [], ◌∷◌, ◌++◌, ◌==◌, if◌then◌else◌}
use llama_cpp_rs.Prelude.Result.{Result}
use llama_cpp_rs.Prelude.Run.{Run, ok, err, panic, fault, Method, ◌>>=◌, ◌>>◌}

pub data NumaStrategy : Type 0 where
  disabled distribute isolate numactl mirror count : NumaStrategy

-- llama.cpp's `GGML_NUMA_STRATEGY_*`
pub record NumaConstants : Type 0 where
  pub ggml_disabled : ℕ
  pub ggml_distribute : ℕ
  pub ggml_isolate : ℕ
  pub ggml_numactl : ℕ
  pub ggml_mirror : ℕ
  pub ggml_count : ℕ

pub data InvalidNumaStrategy : Type 0 where
  invalid_numa_strategy : ℕ → InvalidNumaStrategy

module _ (constants : NumaConstants) where
  unfoldable pub try_from : ℕ → Result InvalidNumaStrategy NumaStrategy
  try_from value =
      if value == constants.ggml_disabled
      then Result.ok disabled
      else if value == constants.ggml_distribute
      then Result.ok distribute
      else if value == constants.ggml_isolate
      then Result.ok isolate
      else if value == constants.ggml_numactl
      then Result.ok numactl
      else if value == constants.ggml_mirror
      then Result.ok mirror
      else if value == constants.ggml_count
      then Result.ok count
      else Result.err (invalid_numa_strategy value)

  unfoldable pub from : NumaStrategy → ℕ
  from disabled = constants.ggml_disabled
  from distribute = constants.ggml_distribute
  from isolate = constants.ggml_isolate
  from numactl = constants.ggml_numactl
  from mirror = constants.ggml_mirror
  from count = constants.ggml_count

pub data LlamaCppError : Type 0 where
  backend_already_initialized : LlamaCppError

pub data NativeCall : Type 0 where
  llama_backend_init llama_backend_free void_log_set : NativeCall
  llama_numa_init : ℕ → NativeCall

-- The process: `LLAMA_BACKEND_INITIALIZED`, and the calls of llama.cpp so far.
pub record Process : Type 0 where
  pub initialized : Bool
  pub calls : List NativeCall

unfoldable pub call : NativeCall → Process → Process
call c p = record p { calls = p.calls ++ c ∷ [] }

-- `compare_exchange(false, true)`
unfoldable pub mark_init : Method Process LlamaCppError (Unit {0})
mark_init p =
    if p.initialized
    then err backend_already_initialized p
    else ok tt (record p { initialized = true })

unfoldable pub init : Method Process LlamaCppError (Unit {0})
init = mark_init >>= λ marked p. ok tt (call llama_backend_init p)

unfoldable pub init_numa : NumaConstants → NumaStrategy → Method Process LlamaCppError (Unit {0})
init_numa constants strategy =
    mark_init >>= λ marked p. ok tt (call (llama_numa_init (from constants strategy)) p)

unfoldable pub void_logs : Process → Process
void_logs p = call void_log_set p

-- `drop`, with `unreachable!` as a panic
unfoldable pub drop : Method Process LlamaCppError (Unit {0})
drop p =
    if p.initialized
    then ok tt (call llama_backend_free (record p { initialized = false }))
    else panic
