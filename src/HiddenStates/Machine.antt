-- ===== src/HiddenStates/Machine.antt =====
-- The methods of `Capture` and the scheduler's `callback`, of llama-cpp-2/src/context/hidden_states.rs.
-- What ggml does is a parameter: the tag of `f32`, the test for a finite number, and the read of a
-- tensor's bytes, which gives the values that the bytes hold.
pub mod Slots
pub mod Soundness
pub mod Taking
pub mod Reachable
pub mod Errors
use llama_cpp_rs.Prelude.{
  ℕ, suc, ◌*◌, ◌≡◌, Bool, true, false, not, ◌&&◌, ◌||◌, Option, none, some, List, [], ◌∷◌, ◌==◌,
  length, if◌then◌else◌,
}
use llama_cpp_rs.Prelude.Run.{Run, ok, err, panic, fault}
use llama_cpp_rs.Prelude.Result
use llama_cpp_rs.Prelude.Result.{Result}
use llama_cpp_rs.Batch.{LlamaBatch}
use llama_cpp_rs.HiddenStates.{
  HiddenStateCaptureError, no_capture, allocation_failed, unsupported_batch, evaluation_failed,
  callback_failed, missing_layer, duplicate_layer, unsupported_tensor, non_finite, LayerHiddenState,
  Slot, State, Capture, Reserve, f32_size,
}
use llama_cpp_rs.HiddenStates.Shape.{Scan, batch_shape}
use llama_cpp_rs.HiddenStates.Name.{layer_from_name}
use llama_cpp_rs.HiddenStates.Row.{Tensor, row_offset}

pub record Native (F : Type 0) : Type 0 where
  pub type_f32 : ℕ
  pub is_finite : F → Bool
  -- `ggml_backend_tensor_get(t, _, offset, size)`
  pub tensor_get : Tensor → ℕ → ℕ → List F

abbrev pub is_some : {A : Type 0} → Option A → Bool
is_some none = false
is_some (some a) = true

abbrev pub Act : Type 0 → Type 0 → Type 0
Act F A = Run (Capture F) HiddenStateCaptureError A

module _ {F : Type 0} where
  -- `for slot in &mut state.slots { slot.seen = false; }`
  unfoldable pub clear_seen : List (Slot F) → List (Slot F)
  clear_seen [] = []
  clear_seen (s ∷ ss) = record s { seen = false } ∷ clear_seen ss

  -- the resets at the head of `begin`
  abbrev pub reset : State F → State F
  reset s = record {
    slots = clear_seen s.slots;
    rows = s.rows;
    outputs = s.outputs;
    active = false;
    enabled = s.enabled;
    ready = false;
    error = none;
  }

  -- the `match` of `begin`, over the state after the resets
  unfoldable pub begin_shape : State F → Capture F → Scan (ℕ × ℕ) → Act F (Unit {0})
  begin_shape s c (ok shape _) =
      ok tt (record c { state = record s { rows = shape.0; outputs = shape.1; active = true } })
  begin_shape s c (err e _) = ok tt (record c { state = record s { error = some e } })
  begin_shape s c panic = panic
  begin_shape s c fault = fault

  unfoldable pub begin : LlamaBatch → ℕ → Capture F → Act F (Unit {0})
  begin batch n_ubatch c =
      if c.poisoned
      then ok tt c
      else (if c.state.enabled
          then begin_shape (reset c.state) c (batch_shape batch n_ubatch)
          else ok tt (record c { state = reset c.state }))

  -- the layer of the first slot that was not seen
  unfoldable pub first_unseen : List (Slot F) → Option ℕ
  first_unseen [] = none
  first_unseen (s ∷ ss) = if s.seen then first_unseen ss else some s.snapshot.layer

  unfoldable pub finish_error : Bool → State F → Option HiddenStateCaptureError
  finish_error success s =
      if not success
      then some evaluation_failed
      else (if is_some s.error then s.error else elim (first_unseen s.slots) [
        | none ↦ none
        | some layer ↦ some (missing_layer layer)
      ])

  unfoldable pub finish : Bool → Capture F → Capture F
  finish success c =
      let s = record c.state { active = false } in
      if c.poisoned
      then c
      else (if s.enabled
          then record c { state = record s { ready = true; error = finish_error success s } }
          else record c { state = s })

  unfoldable pub unsupported : Capture F → Capture F
  unsupported c =
      let s = c.state in
      if c.poisoned then c else record c {
        state = record s { active = false; ready = s.enabled; error = some unsupported_batch };
      }

  unfoldable pub set_enabled : Bool → Capture F → Act F (Unit {0})
  set_enabled enabled c =
      if c.poisoned
      then err callback_failed c
      else ok tt (record c { state = record (reset c.state) { enabled = enabled } })

  -- the loop of `take`; its `k`-th request is for one copy
  unfoldable pub copy_slots :
      Reserve → ℕ → List (Slot F) → Result HiddenStateCaptureError (List (LayerHiddenState F))
  copy_slots reserve k [] = Result.ok []
  copy_slots reserve k (s ∷ ss) =
      let rest = copy_slots reserve (suc k) ss in
      if reserve k (length s.snapshot.values)
      then elim rest [
        | Result.ok copies ↦ Result.ok (s.snapshot ∷ copies)
        | Result.err e ↦ Result.err e
      ]
      else Result.err allocation_failed

  unfoldable pub take : Reserve → Capture F → Act F (List (LayerHiddenState F))
  take reserve c =
      if c.poisoned
      then err callback_failed c
      else (if c.state.ready
          then elim c.state.error [
            | some e ↦ err e c
            | none ↦
                if reserve 0 (length c.state.slots)
                then elim (copy_slots reserve 1 c.state.slots) [
                  | Result.ok copies ↦
                      ok copies (record c { state = record c.state { ready = false } })
                  | Result.err e ↦ err e c
                ]
                else err allocation_failed c
          ]
          else err no_capture c)

-- `t.view_src.as_ref().map_or(t.buffer, |src| src.buffer)` is not null
abbrev pub buffered : Tensor → Bool
buffered t = elim t.view_src [ none ↦ t.has_buffer | some b ↦ b ]

module _ {F : Type 0} where
  -- `state.slots.iter_mut().find(|s| s.snapshot.layer == layer)`, and a change of that slot
  unfoldable pub update_slot :
      ℕ
      → (Slot F → Slot F × Option HiddenStateCaptureError)
      → List (Slot F)
      → Option (List (Slot F) × Option HiddenStateCaptureError)
  update_slot layer f [] = none
  update_slot layer f (s ∷ ss) =
      let rest = update_slot layer f ss in
      if s.snapshot.layer == layer
      then some ((f s).0 ∷ ss, (f s).1)
      else elim rest [ none ↦ none | some (ss', e) ↦ some (s ∷ ss', e) ]

module _ {F : Type 0} (native : Native F) where
  unfoldable pub all_finite : List F → Bool
  all_finite [] = true
  all_finite (v ∷ vs) = native.is_finite v && all_finite vs

  -- the read of a tensor into the slot of its layer, with the error that it leaves
  unfoldable pub read_slot : Tensor → ℕ → ℕ → ℕ → Slot F → Slot F × Option HiddenStateCaptureError
  read_slot t layer rows outputs slot =
      let width = length slot.snapshot.values in
      if slot.seen
      then (slot, some (duplicate_layer layer))
      else elim (row_offset native.type_f32 t width rows outputs) [
        | none ↦ (slot, some (unsupported_tensor layer))
        | some offset ↦
            let values = native.tensor_get t offset (width * f32_size) in
            let snapshot = record slot.snapshot { values = values } in
            if t.has_data && buffered t
            then (if all_finite values
                then (record { snapshot = snapshot; seen = true }, none)
                else (record { snapshot = snapshot; seen = false }, some (non_finite layer)))
            else (slot, some (unsupported_tensor layer))
      ]

  -- the end of the closure, with the slot of the layer read, if there is one
  unfoldable pub observe_slot :
      Bool → Capture F → Option (List (Slot F) × Option HiddenStateCaptureError) → Bool × Capture F
  observe_slot ask c none = (not ask, c)
  observe_slot true c (some read) = (true, c)
  observe_slot false c (some read) =
      (true, record c { state = record c.state { slots = read.0; error = read.1 } })

  unfoldable pub observe_layer : Tensor → Bool → Capture F → Option ℕ → Bool × Capture F
  observe_layer t ask c none = (not ask, c)
  observe_layer t ask c (some layer) =
      observe_slot ask c
        (update_slot layer (read_slot t layer c.state.rows c.state.outputs) c.state.slots)

  -- the closure of `callback`, past its tests on the lock and on the state
  unfoldable pub observe : Option Tensor → Bool → Capture F → Bool × Capture F
  observe none ask c =
      (not ask, record c { state = record c.state { error = some callback_failed } })
  observe (some t) ask c = observe_layer t ask c (layer_from_name t.name)

  unfoldable pub callback : Option Tensor → Bool → Capture F → Bool × Capture F
  callback t ask c =
      if c.poisoned
      then (not ask, c)
      else (if not c.state.active || is_some c.state.error then (not ask, c) else observe t ask c)

  -- Calls of the scheduler, in their order; which ones an evaluation makes is ggml's.
  unfoldable pub calls : List (Option Tensor × Bool) → Capture F → Capture F
  calls [] c = c
  calls ((t, ask) ∷ ts) c = calls ts (callback t ask c).1

-- A panic of the closure while it holds the lock: the lock is poisoned, and the `Err` arm of
-- `callback` cannot take it.
unfoldable pub panicked : {F : Type 0} → Bool → Capture F → Bool × Capture F
panicked ask c = (not ask, record c { poisoned = true })

-- `callback` with the pointer that the scheduler hands over; null is `none`.
unfoldable pub callback_raw :
    {F : Type 0} → Native F → Option Tensor → Bool → Option (Capture F) → Bool × Option (Capture F)
callback_raw native t ask none = (not ask, none)
callback_raw native t ask (some c) = let (answer, c') = callback native t ask c in (answer, some c')
