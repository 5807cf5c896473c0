-- ===== src/HiddenStates/Shape.antt =====
-- `batch_shape` of llama-cpp-2/src/context/hidden_states.rs, over the arrays of a `llama_batch`.
pub mod Entries
pub mod Returns
pub mod Unambiguous
pub mod Accepts
use llama_cpp_rs.Prelude.{
  ℕ, zero, suc, ◌+◌, ◌-◌, Bool, true, false, not, ◌&&◌, ◌||◌, Option, none, some, List, [], ◌∷◌,
  ltb, leb, ◌==◌, if◌then◌else◌, ℤ, int_eqb, int_leb, to_usize, get_elem?,
}
use llama_cpp_rs.Prelude.Run.{Run, ok, err, panic, fault}
use llama_cpp_rs.Prelude.Memory.{Ptr}
use llama_cpp_rs.Batch.{RawBatch, LlamaBatch}
use llama_cpp_rs.HiddenStates.{HiddenStateCaptureError, unsupported_batch}

-- A pure scan: `fault` stands for a read that Rust leaves undefined.
abbrev pub Scan : Type 0 → Type 0
Scan A = Run (Unit {0}) HiddenStateCaptureError A

abbrev pub then_scan : {A B : Type 0} → Scan A → (A → Scan B) → Scan B
then_scan (ok a _) f = f a
then_scan (err e s) f = err e s
then_scan panic f = panic
then_scan fault f = fault

abbrev pub invalid : {A : Type 0} → Scan A
invalid = err unsupported_batch tt

-- a read through a pointer that is not null
abbrev pub fetch : {A : Type 0} → List A → ℕ → Scan A
fetch xs i = elim (get_elem? xs i) [ none ↦ fault | some x ↦ ok x tt ]

-- the variables of the loop
pub record Seen : Type 0 where
  pub sequence : Option ℤ
  pub previous_pos : Option ℤ
  pub outputs : ℕ

-- `sequence.is_some_and(|previous| previous != id)`
unfoldable pub other_sequence : Option ℤ → ℤ → Bool
other_sequence none id = false
other_sequence (some previous) id = not (int_eqb previous id)

-- `previous_pos.is_some_and(|previous| previous >= pos)`
unfoldable pub not_after : Option ℤ → ℤ → Bool
not_after none at = false
not_after (some previous) at = int_leb at previous

abbrev pub is_negative : ℤ → Bool
is_negative (ℤ.pos n) = false
is_negative (ℤ.negsuc n) = true

abbrev pub is_null : {A : Type 0} → Ptr A → Bool
is_null none = true
is_null (some xs) = false

unfoldable pub scan_id : Option ℤ → ℤ → Scan (Option ℤ)
scan_id sequence id = if other_sequence sequence id then invalid else ok (some id) tt

-- the row of sequence ids at the index `i`
unfoldable pub scan_row : Ptr (Ptr ℤ) → ℕ → Option ℤ → Scan (Option ℤ)
scan_row none i sequence = invalid
scan_row (some rows) i sequence =
    then_scan (fetch rows i)
      λ ids. elim ids [ none ↦ invalid | some xs ↦ then_scan (fetch xs 0) (scan_id sequence) ]

unfoldable pub scan_sequence : RawBatch → ℕ → Option ℤ → Scan (Option ℤ)
scan_sequence raw i sequence = elim raw.n_seq_id [
  | none ↦ if is_null raw.seq_id then ok sequence tt else invalid
  | some counts ↦
      then_scan (fetch counts i)
        λ n. if int_eqb n (ℤ.pos 1) then scan_row raw.seq_id i sequence else invalid
]

unfoldable pub scan_at : Option ℤ → ℤ → Scan (Option ℤ)
scan_at previous at = if is_negative at || not_after previous at then invalid else ok (some at) tt

unfoldable pub scan_pos : RawBatch → ℕ → Option ℤ → Scan (Option ℤ)
scan_pos raw i previous = elim raw.pos [
  | none ↦ ok previous tt
  | some ps ↦ then_scan (fetch ps i) (scan_at previous)
]

unfoldable pub scan_output : RawBatch → ℕ → ℕ → Scan Bool
scan_output raw rows i = elim raw.logits [
  | none ↦ ok (i == rows - 1) tt
  | some ls ↦ then_scan (fetch ls i) λ l. ok (not (int_eqb l (ℤ.pos 0))) tt
]

abbrev pub of_flag : Bool → ℕ
of_flag true = 1
of_flag false = 0

unfoldable pub scan_last : ℕ → ℕ → Seen → Bool → Scan Seen
scan_last rows i s output =
    if i == rows - 1 && not output
    then invalid
    else ok (record s { outputs = s.outputs + of_flag output }) tt

-- the body of the loop at the index `i`
unfoldable pub scan_step : RawBatch → ℕ → ℕ → Seen → Scan Seen
scan_step raw rows i s = then_scan (scan_sequence raw i s.sequence) λ sequence.
    then_scan (scan_pos raw i s.previous_pos) λ previous.
      then_scan (scan_output raw rows i) λ output.
        scan_last rows i
          (record { sequence = sequence; previous_pos = previous; outputs = s.outputs }) output

-- `for i in 0..rows`, with `left` rounds left
unfoldable pub scan_rows : RawBatch → ℕ → ℕ → ℕ → Seen → Scan Seen
scan_rows raw rows i zero s = ok s tt
scan_rows raw rows i (suc left) s =
    then_scan (scan_step raw rows i s) λ s'. scan_rows raw rows (suc i) left s'

abbrev pub unseen : Seen
unseen = record { sequence = none; previous_pos = none; outputs = 0 }

unfoldable pub batch_shape : LlamaBatch → ℕ → Scan (ℕ × ℕ)
batch_shape batch n_ubatch = elim (to_usize batch.llama_batch.n_tokens) [
  | none ↦ invalid
  | some rows ↦
      if rows == 0 || ltb n_ubatch rows || is_null batch.llama_batch.token
      then invalid
      else then_scan (scan_rows batch.llama_batch rows 0 rows unseen) λ s. ok (rows, s.outputs) tt
]
