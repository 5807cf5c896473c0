-- ===== src/Examples/Evaluations.antt =====
-- A whole evaluation of llama-cpp-2/src/context/hidden_states.rs: a batch of one token, the tensor of
-- the selected layer, the end, and the readout.
use llama_cpp_rs.Prelude.{
  ℕ, ◌≡◌, refl, true, false, some, none, Option, Bool, List, [], ◌∷◌, map, ℤ, All,
}
use llama_cpp_rs.Prelude.Run.{ok}
use llama_cpp_rs.Prelude.Result
use llama_cpp_rs.Batch.{LlamaBatch}
use llama_cpp_rs.HiddenStates.{
  LayerHiddenState, Capture, new, layers_ok, width_ok, contains, make_slots, idle_state,
}
use llama_cpp_rs.HiddenStates.Shape.{
  batch_shape, scan_rows, scan_step, scan_sequence, scan_pos, scan_output, scan_last,
}
use llama_cpp_rs.HiddenStates.Name.{
  layer_from_name, until_nul, layer_of, zip_eqb, padded, fold_digits, push_digit, digit_of,
}
use llama_cpp_rs.HiddenStates.Name.Exact.{named}
use llama_cpp_rs.HiddenStates.Row.{Tensor, row_offset, layout_ok}
use llama_cpp_rs.HiddenStates.Machine.{
  calls, begin, begin_shape, clear_seen, finish, finish_error, take, callback, first_unseen,
  copy_slots, observe, observe_layer, observe_slot, update_slot, read_slot, all_finite,
}
use llama_cpp_rs.HiddenStates.Machine.Taking.{IsWhole}
use llama_cpp_rs.HiddenStates.Machine.Reachable.{Reach, here, next, Step, take-Reach}
use llama_cpp_rs.HiddenStates.Marking.{IsReadable}
use llama_cpp_rs.HiddenStates.Schedule.{Schedules, residuals, residual_of}
use llama_cpp_rs.HiddenStates.Completeness.{take_complete}
use llama_cpp_rs.Examples.Captures.{ones, ones-IsExact, plenty, slot, watching, tensor}

abbrev pub single : LlamaBatch
single = record {
  allocated = 0;
  initialized_logits = ℤ.pos 0 ∷ [];
  llama_batch = record {
    n_tokens = ℤ.pos 1;
    token = some (ℤ.pos 7 ∷ []);
    pos = none;
    n_seq_id = none;
    seq_id = none;
    logits = none;
  };
}

abbrev one_row : Tensor
one_row = record (tensor (named (2 ∷ []) [])) { ne1 = ℤ.pos 1; nb2 = 8; nb3 = 8 }

abbrev pub created : Capture ℕ
created = record { state = idle_state 0 plenty (slot 2 false ∷ []); poisoned = false }

abbrev pub started : Capture ℕ
started = watching (slot 2 false ∷ []) none

created_lem : new 0 plenty (2 ∷ []) (ℤ.pos 2) 3 ≡ Result.ok created
unfolding new layers_ok width_ok contains make_slots
created_lem = refl

started_lem : begin single 1 created ≡ ok tt started
unfolding begin begin_shape clear_seen batch_shape scan_rows scan_step scan_sequence scan_pos
    scan_output scan_last
started_lem = refl

abbrev read_out : Capture ℕ
read_out = (callback ones (some one_row) false started).1

abbrev completed : Capture ℕ
completed = finish true read_out

created-Reach : Reach ones created completed
created-Reach =
    next
      (next (next here (Step.begun single 1 started_lem)) (Step.called (some one_row) false refl))
      (Step.finished true refl)

completed-take :
    take plenty completed
    ≡ ok
        (record { layer = 2; values = 1 ∷ 1 ∷ [] } ∷ [])
        (record { state = record completed.state { ready = false }; poisoned = false })
unfolding take finish finish_error first_unseen copy_slots callback observe observe_layer
    observe_slot update_slot read_slot all_finite row_offset layout_ok layer_from_name until_nul
    layer_of zip_eqb padded fold_digits push_digit digit_of
completed-take = refl

take-Reach_example :
    (map (λ (v : LayerHiddenState ℕ). v.layer) (record { layer = 2; values = 1 ∷ 1 ∷ [] } ∷ [])
      ≡ 2 ∷ [])
    × All (IsWhole ones 2) (record { layer = 2; values = 1 ∷ 1 ∷ [] } ∷ [])
take-Reach_example =
    take-Reach ones 0 plenty plenty (2 ∷ []) 2 3 created completed _ _ ones-IsExact created_lem
      created-Reach completed-take

one_row-IsReadable : IsReadable ones 2 1 1 2 one_row
unfolding layer_from_name until_nul layer_of zip_eqb padded fold_digits push_digit digit_of
    row_offset layout_ok all_finite
one_row-IsReadable = record { offset = 0; name = refl; row = refl; backed = refl; finite = refl }

single_lem : batch_shape single 1 ≡ ok (1, 1) tt
unfolding batch_shape scan_rows scan_step scan_sequence scan_pos scan_output scan_last
single_lem = refl

-- the tensor of a layer that is not selected
abbrev skipped_row : Tensor
skipped_row = record one_row { name = named (1 ∷ []) [] }

abbrev one_row_calls : List (Option Tensor × Bool)
one_row_calls = (some skipped_row, true) ∷ (some one_row, true) ∷ (some one_row, false) ∷ []

one_row_schedule : Schedules ones started (skipped_row ∷ one_row ∷ []) one_row_calls
unfolding callback observe observe_layer observe_slot update_slot read_slot all_finite row_offset
    layout_ok layer_from_name until_nul layer_of zip_eqb padded fold_digits push_digit digit_of
one_row_schedule =
    Schedules.skipped started skipped_row _ _ refl
      (Schedules.shown started one_row [] [] refl refl (Schedules.finished _))

take_complete_example :
    (copies : List (LayerHiddenState ℕ)) × (d : Capture ℕ) × (take plenty
        (finish true (calls ones one_row_calls started))
      ≡ ok copies d)
    × (map (λ v. v.layer) copies ≡ 2 ∷ [])
unfolding contains residuals residual_of layer_from_name until_nul layer_of zip_eqb padded
    fold_digits push_digit digit_of
take_complete_example =
    take_complete ones ones-IsExact 2 1 1 0 plenty plenty (2 ∷ []) 3 created created started single
      1 (skipped_row ∷ one_row ∷ []) one_row_calls created_lem here refl refl single_lem started_lem
      one_row_schedule (one_row-IsReadable, tt) (tt, tt) (refl, tt) (λ k m. refl)
