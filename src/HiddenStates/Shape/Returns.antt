-- ===== src/HiddenStates/Shape/Returns.antt =====
-- `batch_shape` on an owned batch: the loop and its reads.
use mathlib.Core.Path.{subst}
use llama_cpp_rs.Prelude.{
  ℕ, suc, ◌-◌, sym, ◌||◌, ◌&&◌, not, Bool, Option, List, [], ◌∷◌, ltb, ◌==◌, ℤ, length, if_rule,
}
use llama_cpp_rs.Prelude.Run.{Run, ok, err, panic, fault}
use llama_cpp_rs.Batch.{LlamaBatch}
use llama_cpp_rs.Batch.View.{Entry, Shows}
use llama_cpp_rs.HiddenStates.Shape.{
  Scan, then_scan, Seen, scan_id, other_sequence, scan_at, not_after, is_negative, scan_last,
  unseen, batch_shape,
}
use llama_cpp_rs.HiddenStates.Shape.Entries.{
  entry_sequence, entry_step, scan_entries, entries_shape, batch_shape-entries,
}

-- The run ends with a value or an error.
abbrev pub Returns : {S E A : Type 0} → Run S E A → Type 0
Returns (ok a s) = Unit
Returns (err e s) = Unit
Returns panic = ⊥
Returns fault = ⊥

then_scan-Returns :
    {A B : Type 0} (m : Scan A) (f : A → Scan B)
    → Returns m
    → ((a : A) → Returns (f a))
    → Returns (then_scan m f)
then_scan-Returns (ok a s) f h k = k a
then_scan-Returns (err e s) f h k = tt
then_scan-Returns panic f h k = h
then_scan-Returns fault f h k = h

scan_id-Returns : (sequence : Option ℤ) (id : ℤ) → Returns (scan_id sequence id)
unfolding scan_id
scan_id-Returns sequence id = if_rule Returns (other_sequence sequence id) _ _ (λ e. tt) λ e. tt

entry_sequence-Returns :
    (ids : List ℤ) (sequence : Option ℤ) → Returns (entry_sequence ids sequence)
entry_sequence-Returns [] sequence = tt
entry_sequence-Returns (id ∷ []) sequence = scan_id-Returns sequence id
entry_sequence-Returns (id ∷ j ∷ js) sequence = tt

scan_at-Returns : (previous : Option ℤ) (at : ℤ) → Returns (scan_at previous at)
unfolding scan_at
scan_at-Returns previous at =
    if_rule Returns (is_negative at || not_after previous at) _ _ (λ e. tt) λ e. tt

scan_last-Returns : (rows i : ℕ) (s : Seen) (output : Bool) → Returns (scan_last rows i s output)
unfolding scan_last
scan_last-Returns rows i s output =
    if_rule Returns (i == rows - 1 && not output) _ _ (λ e. tt) λ e. tt

scan_entries-Returns :
    (rows i : ℕ) (es : List Entry) (s : Seen) → Returns (scan_entries rows i es s)
unfolding scan_entries
scan_entries-Returns rows i [] s = tt
scan_entries-Returns rows i (e ∷ es) s =
    then_scan-Returns (entry_step rows i e s) (λ s'. scan_entries rows (suc i) es s')
      (then_scan-Returns (entry_sequence e.seq_ids s.sequence) _
        (entry_sequence-Returns e.seq_ids s.sequence)
        λ sequence.
          then_scan-Returns (scan_at s.previous_pos e.at) _ (scan_at-Returns s.previous_pos e.at)
            λ previous. scan_last-Returns rows i _ e.logits)
      λ s'. scan_entries-Returns rows (suc i) es s'

pub batch_shape-Returns :
    (size width : ℕ) (b : LlamaBatch) (es : List Entry) (n_ubatch : ℕ)
    → Shows size width b es
    → Returns (batch_shape b n_ubatch)
unfolding entries_shape
batch_shape-Returns size width b es n_ubatch shows =
    subst Returns (sym (batch_shape-entries size width b es n_ubatch shows)) (
      if_rule Returns (length es == 0 || ltb n_ubatch (length es)) _ _ (λ e. tt)
        λ e.
          then_scan-Returns (scan_entries (length es) 0 es unseen) _
            (scan_entries-Returns (length es) 0 es unseen) λ s. tt)
