-- ===== src/HiddenStates.antt =====
-- llama-cpp-2/src/context/hidden_states.rs: the types of the hidden-state capture and its
-- constructor. `F` stands for `f32`, `zero` for `0.0`, and `reserve` answers whether the allocator
-- grants the `k`-th request of a call, for `n` elements.
pub mod Shape
pub mod Name
pub mod Row
pub mod Machine
pub mod Construction
pub mod Marking
pub mod Schedule
pub mod Completeness
use llama_cpp_rs.Prelude.{
  ℕ, suc, ◌*◌, Bool, true, false, ◌||◌, Option, none, some, List, [], ◌∷◌, ◌++◌, ltb, leb, ◌==◌,
  length, replicate, if◌then◌else◌, ℤ, to_usize,
}
use llama_cpp_rs.Prelude.Result.{Result, ok, err, ◌>>=◌}

abbrev pub max_capture_layers : ℕ
max_capture_layers = 64

abbrev pub max_capture_width : ℕ
max_capture_width = 32768

abbrev pub max_capture_bytes : ℕ
max_capture_bytes = 4 * 1024 * 1024

-- `size_of::<f32>()`
abbrev pub f32_size : ℕ
f32_size = 4

pub data HiddenStateCaptureError : Type 0 where
  not_enabled no_capture invalid_layers capacity_exceeded : HiddenStateCaptureError
  allocation_failed unsupported_context context_creation_failed : HiddenStateCaptureError
  unsupported_batch evaluation_failed callback_failed : HiddenStateCaptureError
  missing_layer duplicate_layer unsupported_tensor non_finite : ℕ → HiddenStateCaptureError

pub record LayerHiddenState (F : Type 0) : Type 0 where
  pub layer : ℕ
  pub values : List F

pub record Slot (F : Type 0) : Type 0 where
  pub snapshot : LayerHiddenState F
  pub seen : Bool

pub record State (F : Type 0) : Type 0 where
  pub slots : List (Slot F)
  pub rows : ℕ
  pub outputs : ℕ
  pub active : Bool
  pub enabled : Bool
  pub ready : Bool
  pub error : Option HiddenStateCaptureError

-- `Mutex<State>`: a panic under the lock poisons it, and `lock` fails from then on.
pub record Capture (F : Type 0) : Type 0 where
  pub state : State F
  pub poisoned : Bool

abbrev pub Reserve : Type 0
Reserve = ℕ → ℕ → Bool

unfoldable pub contains : List ℕ → ℕ → Bool
contains [] x = false
contains (y ∷ ys) x = x == y || contains ys x

-- the loop over `config.layers`; `prior` is `config.layers[..i]`
unfoldable pub layers_ok : ℕ → List ℕ → List ℕ → Bool
layers_ok limit prior [] = true
layers_ok limit prior (l ∷ ls) =
    let rest = layers_ok limit (prior ++ l ∷ []) ls in
    if leb limit l || contains prior l then false else rest

-- the test on the width and on the memory
unfoldable pub width_ok : ℕ → ℕ → Bool
width_ok width count =
    if width == 0 || ltb max_capture_width width || ltb max_capture_bytes (width * count * f32_size)
    then false
    else true

module _ {F : Type 0} (zero : F) (reserve : Reserve) where
  -- the loop that fills `slots`; its `k`-th request is for one vector
  unfoldable pub make_slots : ℕ → ℕ → List ℕ → Result HiddenStateCaptureError (List (Slot F))
  make_slots k width [] = ok []
  make_slots k width (l ∷ ls) =
      let rest = make_slots (suc k) width ls in
      if reserve k width
      then (do
        slots ← rest
        ok (
            record { snapshot = record { layer = l; values = replicate width zero }; seen = false }
            ∷ slots))
      else err allocation_failed

  abbrev pub idle_state : List (Slot F) → State F
  idle_state slots = record {
    slots = slots;
    rows = 0;
    outputs = 0;
    active = false;
    enabled = true;
    ready = false;
    error = none;
  }

  -- `Capture::new(config, width, layers)`
  unfoldable pub new : List ℕ → ℤ → ℕ → Result HiddenStateCaptureError (Capture F)
  new config width layers =
      if length config == 0 || ltb max_capture_layers (length config)
      then err invalid_layers
      else (if layers_ok layers [] config
          then elim (to_usize width) [
            | none ↦ err capacity_exceeded
            | some w ↦
                if width_ok w (length config)
                then (if reserve 0 (length config)
                    then (do
                      slots ← make_slots 1 w config
                      ok (record { state = idle_state slots; poisoned = false }))
                    else err allocation_failed)
                else err capacity_exceeded
          ]
          else err invalid_layers)
