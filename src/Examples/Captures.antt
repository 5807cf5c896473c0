-- ===== src/Examples/Captures.antt =====
-- Runs of llama-cpp-2/src/context/hidden_states.rs, with natural numbers for the values of `f32`.
use llama_cpp_rs.Prelude.{
  ℕ, ◌+◌, ◌*◌, ◌/◌, ◌<◌, ◌≡◌, ◌⊎◌, inl, refl, Bool, true, false, Option, some, none, List, [], ◌∷◌,
  arith, length, replicate, ℤ, length-replicate,
}
use llama_cpp_rs.Prelude.Run.{ok}
use llama_cpp_rs.Prelude.Result
use llama_cpp_rs.Batch.{LlamaBatch, add}
use llama_cpp_rs.Batch.View.{Entry, Shows, outputs}
use llama_cpp_rs.Batch.Adding.{add-Shows}
use llama_cpp_rs.HiddenStates.{
  HiddenStateCaptureError, Slot, Capture, Reserve, new, layers_ok, width_ok, contains, make_slots,
  idle_state,
}
use llama_cpp_rs.HiddenStates.Shape.{batch_shape}
use llama_cpp_rs.HiddenStates.Shape.Unambiguous.{IsUnambiguous}
use llama_cpp_rs.HiddenStates.Shape.Accepts.{batch_shape_accepts, batch_shape_inv}
use llama_cpp_rs.HiddenStates.Name.{layer_from_name}
use llama_cpp_rs.HiddenStates.Name.Exact.{
  layer_from_name-named, named, value_from, IsCanonical, layer_from_name_inv,
}
use llama_cpp_rs.HiddenStates.Row.{Tensor, row_offset}
use llama_cpp_rs.HiddenStates.Row.Bounds.{row_offset_complete, IsResidual, row_offset_bounds}
use llama_cpp_rs.HiddenStates.Machine.{Native}
use llama_cpp_rs.HiddenStates.Machine.Slots.{IsExact}
use llama_cpp_rs.HiddenStates.Machine.Soundness.{IsSound}
use llama_cpp_rs.HiddenStates.Construction.{IsSelection, new_inv}
use llama_cpp_rs.Examples.Batch.{fresh, fresh-Shows}

-- A backend that reads as many ones as it is asked for.
abbrev pub ones : Native ℕ
ones = record {
  type_f32 = 0;
  is_finite = λ v. true;
  tensor_get = λ t offset size. replicate (size / 4) 1;
}

pub ones-IsExact : IsExact ones
ones-IsExact = record {
  exact = λ t offset n. let one : ℕ = 1 in omega (arith, length-replicate (n * 4 / 4) one);
}

abbrev pub plenty : Reserve
plenty k n = true

abbrev pub slot : ℕ → Bool → Slot ℕ
slot layer seen = record { snapshot = record { layer = layer; values = 0 ∷ 0 ∷ [] }; seen = seen }

-- Two layers of a model of width 2, in the middle of an evaluation.
abbrev pub watching : List (Slot ℕ) → Option HiddenStateCaptureError → Capture ℕ
watching slots error = record {
  state = record {
    slots = slots;
    rows = 1;
    outputs = 1;
    active = true;
    enabled = true;
    ready = false;
    error = error;
  };
  poisoned = false;
}

abbrev pub built : Capture ℕ
built = record { state = idle_state 0 plenty (slot 2 false ∷ slot 0 false ∷ []); poisoned = false }

pub built_lem : new 0 plenty (2 ∷ 0 ∷ []) (ℤ.pos 2) 3 ≡ Result.ok built
unfolding new layers_ok width_ok contains make_slots
built_lem = refl

new_inv_example :
    (w : ℕ) × (ℤ.pos 2 ≡ ℤ.pos w)
    × IsSelection 3 w (2 ∷ 0 ∷ [])
    × IsSound ones (2 ∷ 0 ∷ []) w built.state
new_inv_example = new_inv ones 0 plenty (2 ∷ 0 ∷ []) (ℤ.pos 2) 3 built built_lem

abbrev pub tensor : List ℤ → Tensor
tensor name = record {
  name = name;
  type_ = 0;
  ne0 = ℤ.pos 2;
  ne1 = ℤ.pos 3;
  ne2 = ℤ.pos 1;
  ne3 = ℤ.pos 1;
  nb0 = 4;
  nb1 = 8;
  nb2 = 24;
  nb3 = 24;
  has_data = true;
  has_buffer = true;
  view_src = none;
}

tensor-IsResidual : IsResidual 0 (tensor []) 2 3
tensor-IsResidual = record {
  type_ = refl;
  ne0 = refl;
  ne1 = refl;
  ne2 = refl;
  ne3 = refl;
  nb0 = refl;
  nb1 = refl;
  nb2 = refl;
  nb3 = refl;
  counted = omega arith;
}

sixteen_lem : row_offset 0 (tensor []) 2 3 1 ≡ some 16
sixteen_lem = row_offset_complete 0 (tensor []) 2 3 1 2 tensor-IsResidual (inl refl)

row_offset_bounds_example :
    (k : ℕ) × IsResidual 0 (tensor []) 2 k × ((k ≡ 3) ⊎ (k ≡ 1)) × (16 + 2 * 4 ≡ 2 * 4 * k)
row_offset_bounds_example = row_offset_bounds 0 (tensor []) 2 3 1 16 sixteen_lem

thirty_one_lem : layer_from_name (named (3 ∷ 1 ∷ []) (ℤ.pos 9 ∷ [])) ≡ some 31
thirty_one_lem = layer_from_name-named (3 ∷ 1 ∷ []) (ℤ.pos 9 ∷ []) (omega arith)

layer_from_name_inv_example :
    (ds : List ℕ) × (rest : List ℤ) × IsCanonical ds
    × (named (3 ∷ 1 ∷ []) (ℤ.pos 9 ∷ []) ≡ named ds rest)
    × (31 ≡ value_from 0 ds)
    × (31 < 4294967296)
layer_from_name_inv_example =
    layer_from_name_inv (named (3 ∷ 1 ∷ []) (ℤ.pos 9 ∷ [])) 31 thirty_one_lem

abbrev pub lone : Entry
lone = record { token = ℤ.pos 7; at = ℤ.pos 4; seq_ids = ℤ.pos 0 ∷ []; logits = true }

lone-IsUnambiguous : IsUnambiguous 2 (lone ∷ [])
lone-IsUnambiguous = record {
  some_token = omega arith;
  one_microbatch = omega arith;
  one_sequence = (ℤ.pos 0, refl, tt, tt);
  increasing = (tt, tt);
  last_output = refl;
}

pub lone_batch :
    (b : LlamaBatch) × (add (ℤ.pos 7) (ℤ.pos 4) (ℤ.pos 0 ∷ []) true fresh ≡ ok tt b)
    × Shows 2 1 b (lone ∷ [])
lone_batch = add-Shows 2 1 fresh [] fresh-Shows lone (omega arith) (omega arith) (omega arith)

batch_shape_accepts_example : batch_shape lone_batch.0 2 ≡ ok (1, 1) tt
batch_shape_accepts_example =
    batch_shape_accepts 2 1 lone_batch.0 (lone ∷ []) 2 lone_batch.2 lone-IsUnambiguous

lone_lem : batch_shape lone_batch.0 2 ≡ ok (1, 1) tt
lone_lem = batch_shape_accepts 2 1 lone_batch.0 (lone ∷ []) 2 lone_batch.2 lone-IsUnambiguous

batch_shape_inv_example :
    IsUnambiguous 2 (lone ∷ []) × (1 ≡ length (lone ∷ [])) × (1 ≡ length (outputs 0 (lone ∷ [])))
batch_shape_inv_example = batch_shape_inv 2 1 lone_batch.0 (lone ∷ []) 2 lone_batch.2 1 1 lone_lem
