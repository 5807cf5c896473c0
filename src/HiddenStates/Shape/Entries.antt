-- ===== src/HiddenStates/Shape/Entries.antt =====
-- `batch_shape` on an owned batch, computed from the entries that the batch stands for.
use mathlib.Core.Path.{fun_ext}
use native.Mathlib.Nat.{add-zero, zero-add, add-suc, suc-add}
use llama_cpp_rs.Prelude.{
  ℕ, suc, ◌+◌, ◌≡◌, refl, ◌||◌, Option, none, some, List, [], ◌∷◌, ltb, ◌==◌, if◌then◌else◌, ℤ,
  get_elem?, length, arith, take,
}
use llama_cpp_rs.Prelude.Run.{ok}
use llama_cpp_rs.Prelude.Memory.{Ptr, read}
use llama_cpp_rs.Batch.{RawBatch, LlamaBatch, of_bool}
use llama_cpp_rs.Batch.View.{Entry, EntryAt, Shows}
use llama_cpp_rs.HiddenStates.Shape.{
  Scan, then_scan, invalid, Seen, scan_id, scan_row, scan_sequence, scan_at, scan_pos, scan_output,
  scan_last, scan_step, scan_rows, unseen, batch_shape,
}

-- The single sequence id of an entry, against the one seen before.
abbrev pub entry_sequence : List ℤ → Option ℤ → Scan (Option ℤ)
entry_sequence (id ∷ []) sequence = scan_id sequence id
entry_sequence _ sequence = invalid

abbrev pub entry_step : ℕ → ℕ → Entry → Seen → Scan Seen
entry_step rows i e s = then_scan (entry_sequence e.seq_ids s.sequence) λ sequence.
    then_scan (scan_at s.previous_pos e.at) λ previous.
      scan_last rows i
        (record { sequence = sequence; previous_pos = previous; outputs = s.outputs }) e.logits

unfoldable pub scan_entries : ℕ → ℕ → List Entry → Seen → Scan Seen
scan_entries rows i [] s = ok s tt
scan_entries rows i (e ∷ es) s =
    then_scan (entry_step rows i e s) λ s'. scan_entries rows (suc i) es s'

unfoldable pub entries_shape : List Entry → ℕ → Scan (ℕ × ℕ)
entries_shape es n_ubatch =
    if length es == 0 || ltb n_ubatch (length es)
    then invalid
    else then_scan (scan_entries (length es) 0 es unseen) λ s. ok (length es, s.outputs) tt

read_some :
    {A : Type 0} (p : Ptr A) (i : ℕ) (x : A)
    → read p i ≡ some x
    → (xs : List A) × (p ≡ some xs) × (get_elem? xs i ≡ some x)
read_some none i x h = cc
read_some (some xs) i x h = (xs, refl, h)

head_of_take : (xs : List ℤ) (id : ℤ) → take 1 xs ≡ id ∷ [] → get_elem? xs 0 ≡ some id
head_of_take [] id h = cc
head_of_take (x ∷ xs) id h = cc

module _ (raw : RawBatch) (i : ℕ) (counts : List ℤ) (rows : List (Ptr ℤ)) (xs : List ℤ)
    (counted : raw.n_seq_id ≡ some counts) (rowed : raw.seq_id ≡ some rows)
    (row : get_elem? rows i ≡ some (some xs)) (sequence : Option ℤ) where
  scan_sequence-ids :
      (ids : List ℤ)
      → get_elem? counts i ≡ some (ℤ.pos (length ids))
      → take (length ids) xs ≡ ids
      → scan_sequence raw i sequence ≡ entry_sequence ids sequence
  unfolding scan_sequence scan_row
  scan_sequence-ids [] c t = ground (arith, counted, c)
  scan_sequence-ids (id ∷ []) c t = ground (arith, counted, rowed, row, c, head_of_take xs id t)
  scan_sequence-ids (id ∷ j ∷ js) c t = ground (arith, counted, c)

module _ (raw : RawBatch) (i : ℕ) (e : Entry) (h : EntryAt raw i e) where
  scan_sequence-entry :
      (sequence : Option ℤ) → scan_sequence raw i sequence ≡ entry_sequence e.seq_ids sequence
  scan_sequence-entry sequence =
      let (counts, a, b) = read_some raw.n_seq_id i _ h.n_seq_id in
      let (xs, found, ids) = h.row in
      let (rows, c, d) = read_some raw.seq_id i (some xs) found in
      scan_sequence-ids raw i counts rows xs a c d sequence e.seq_ids b ids

  scan_pos-entry : (previous : Option ℤ) → scan_pos raw i previous ≡ scan_at previous e.at
  unfolding scan_pos
  scan_pos-entry previous = let (ps, a, b) = read_some raw.pos i e.at h.pos in ground (arith, a, b)

  scan_output-entry : (rows : ℕ) → scan_output raw rows i ≡ ok e.logits tt
  unfolding scan_output
  scan_output-entry rows =
      let (ls, a, b) = read_some raw.logits i (of_bool e.logits) h.logits in ground (arith, a, b)

  scan_step-entry : (rows : ℕ) (s : Seen) → scan_step raw rows i s ≡ entry_step rows i e s
  unfolding scan_step
  scan_step-entry rows s =
      rw (scan_sequence-entry s.sequence, scan_pos-entry s.previous_pos, scan_output-entry rows)

scan_rows-entries :
    (raw : RawBatch) (rows i : ℕ) (es : List Entry) (s : Seen)
    → ((j : ℕ) (e : Entry) → get_elem? es j ≡ some e → EntryAt raw (i + j) e)
    → scan_rows raw rows i (length es) s ≡ scan_entries rows i es s
unfolding scan_rows scan_entries
scan_rows-entries raw rows i [] s h = refl
scan_rows-entries raw rows i (e ∷ es) s h =
    let first : EntryAt raw i e = rw add-zero at (h 0 e refl) in
    let later : (s' : Seen)
        → scan_rows raw rows (suc i) (length es) s' ≡ scan_entries rows (suc i) es s' =
      λ s'.
        scan_rows-entries raw rows (suc i) es s'
          (λ j d p. rw suc-add (rw add-suc at (h (suc j) d p))) in
    rw (scan_step-entry raw i e first rows s, fun_ext later)

-- `batch_shape` reads from the arrays of an owned batch what its entries say.
pub batch_shape-entries :
    (size width : ℕ) (b : LlamaBatch) (es : List Entry) (n_ubatch : ℕ)
    → Shows size width b es
    → batch_shape b n_ubatch ≡ entries_shape es n_ubatch
unfolding batch_shape entries_shape
batch_shape-entries size width b es n_ubatch h =
    let scanned : scan_rows b.llama_batch (length es) 0 (length es) unseen
        ≡ scan_entries (length es) 0 es unseen =
      scan_rows-entries b.llama_batch (length es) 0 es unseen
        (λ j e p. rw zero-add (h.entries j e p)) in
    let (ts, at, long) = h.room.token in ground (arith, h.n_tokens, at, scanned)
