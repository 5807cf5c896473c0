-- ===== src/Params/Devices.antt =====
-- llama-cpp-2/src/model/params.rs: `with_devices` and `devices`. The devices of the backends are a parameter.
pub mod Selected
use llama_cpp_rs.Prelude.{
  ℕ, zero, suc, ◌+◌, Bool, true, false, List, [], ◌∷◌, Option, none, some, length, replicate, set,
  ltb, leb, ◌==◌, if◌then◌else◌,
}
use llama_cpp_rs.Prelude.Result.{Result, ok, err}
use llama_cpp_rs.Params.{LlamaModelParams, llama_cpp_max_devices}

-- The number of devices, the handle of each, and llama.cpp's maximum.
pub record Backends : Type 0 where
  pub dev_count : ℕ
  pub dev_get : ℕ → Option ℕ
  pub max_devices : ℕ

-- the errors of `LlamaCppError` that `with_devices` gives
pub data DeviceError : Type 0 where
  max_devices_exceeded backend_device_not_found : ℕ → DeviceError

unfoldable pub min : ℕ → ℕ → ℕ
min a b = if leb a b then a else b

-- `self`, with other devices; the array is never empty, so its pointer is always passed
unfoldable pub set_devices : List (Option ℕ) → LlamaModelParams → LlamaModelParams
set_devices devices p = record p { devices = devices; passes_devices = true }

module _ (b : Backends) where
  -- the loop, from index `i`
  unfoldable pub assign : ℕ → List ℕ → List (Option ℕ) → Result DeviceError (List (Option ℕ))
  assign i [] slots = ok slots
  assign i (dev ∷ devices) slots =
      let rest = assign (suc i) devices (set slots i (b.dev_get dev)) in
      if leb b.dev_count dev then err (backend_device_not_found dev) else rest

  unfoldable pub assigned :
      LlamaModelParams → Result DeviceError (List (Option ℕ)) → Result DeviceError LlamaModelParams
  assigned p (ok slots) = ok (set_devices slots p)
  assigned p (err e) = err e

  unfoldable pub with_devices : List ℕ → LlamaModelParams → Result DeviceError LlamaModelParams
  with_devices devices p =
      if ltb (min b.max_devices llama_cpp_max_devices) (length devices)
      then err (max_devices_exceeded (min b.max_devices llama_cpp_max_devices))
      else assigned p (assign 0 devices (replicate llama_cpp_max_devices none))

  -- the handles of all devices, from index `i`
  unfoldable pub backend_devices : ℕ → ℕ → List (Option ℕ)
  backend_devices i zero = []
  backend_devices i (suc n) = b.dev_get i ∷ backend_devices (suc i) n

-- the index of the handle
unfoldable pub handle_index : ℕ → ℕ → List (Option ℕ) → Option ℕ
handle_index i dev [] = none
handle_index i dev (none ∷ rest) = handle_index (suc i) dev rest
handle_index i dev (some d ∷ rest) =
    let later = handle_index (suc i) dev rest in if d == dev then some i else later

-- the loop over the array, up to the first null pointer
unfoldable pub indices : List (Option ℕ) → List (Option ℕ) → List ℕ
indices handles [] = []
indices handles (none ∷ slots) = []
indices handles (some dev ∷ slots) = elim (handle_index 0 dev handles) [
  | none ↦ indices handles slots
  | some i ↦ i ∷ indices handles slots
]

unfoldable pub devices : Backends → LlamaModelParams → List ℕ
devices b p = indices (backend_devices b 0 b.dev_count) p.devices
