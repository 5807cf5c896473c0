-- ===== src/Examples/Batch.antt =====
-- Runs of llama-cpp-2/src/llama_batch.rs.
use llama_cpp_rs.Prelude.{
  ℕ, ◌≡◌, refl, true, false, some, [], ◌∷◌, arith, replicate, ℤ, length-replicate,
  get_elem?-replicate,
}
use llama_cpp_rs.Prelude.Run.{ok, fault}
use llama_cpp_rs.Prelude.Memory.{Spans}
use llama_cpp_rs.Batch.{RawBatch, LlamaBatch, add, add_sequence}
use llama_cpp_rs.Batch.View.{Entry, HasRoom, Shows}
use llama_cpp_rs.Batch.Adding.{add-Shows}
use llama_cpp_rs.Batch.Sequence.{sequence, add_sequence-Shows}
use llama_cpp_rs.Batch.Limits.{add-fault}

-- An allocator that fills the arrays with zeros.
abbrev pub zeros : ℕ → ℕ → RawBatch
zeros n w = record {
  n_tokens = ℤ.pos 0;
  token = some (replicate n (ℤ.pos 0));
  pos = some (replicate n (ℤ.pos 0));
  n_seq_id = some (replicate n (ℤ.pos 0));
  seq_id = some (replicate n (some (replicate w (ℤ.pos 0))));
  logits = some (replicate n (ℤ.pos 0));
}

Spans-zeros : {A : Type 0} (n : ℕ) (a : A) → Spans n (some (replicate n a))
Spans-zeros n a = (replicate n a, refl, omega (arith, length-replicate n a))

zeros-HasRoom : (n w : ℕ) → HasRoom n w (zeros n w)
zeros-HasRoom n w = record {
  token = Spans-zeros n (ℤ.pos 0);
  pos = Spans-zeros n (ℤ.pos 0);
  n_seq_id = Spans-zeros n (ℤ.pos 0);
  seq_id = Spans-zeros n (some (replicate w (ℤ.pos 0)));
  logits = Spans-zeros n (ℤ.pos 0);
  row = λ i h. (
    replicate w (ℤ.pos 0),
    get_elem?-replicate n (some (replicate w (ℤ.pos 0))) i h,
    omega (arith, length-replicate w (ℤ.pos 0)),
  );
}

abbrev pub fresh : LlamaBatch
fresh = record { allocated = 2; initialized_logits = []; llama_batch = zeros 2 1 }

pub fresh-Shows : Shows 2 1 fresh []
fresh-Shows = record {
  small = omega arith;
  allocated = refl;
  fits = omega arith;
  n_tokens = refl;
  room = zeros-HasRoom 2 1;
  entries = λ i e h. cc;
  marked = refl;
}

abbrev token_seven : Entry
token_seven = record { token = ℤ.pos 7; at = ℤ.pos 0; seq_ids = ℤ.pos 0 ∷ []; logits = true }

add-Shows_example :
    (b' : LlamaBatch) × (add (ℤ.pos 7) (ℤ.pos 0) (ℤ.pos 0 ∷ []) true fresh ≡ ok tt b')
    × Shows 2 1 b' (token_seven ∷ [])
add-Shows_example =
    add-Shows 2 1 fresh [] fresh-Shows token_seven (omega arith) (omega arith) (omega arith)

add_sequence-Shows_example :
    (b' : LlamaBatch) × (add_sequence (ℤ.pos 7 ∷ ℤ.pos 8 ∷ []) (ℤ.pos 0) false fresh ≡ ok tt b')
    × Shows 2 1 b' (sequence 0 (ℤ.pos 0) false (ℤ.pos 7 ∷ ℤ.pos 8 ∷ []))
add_sequence-Shows_example =
    add_sequence-Shows 2 1 (ℤ.pos 0) false (omega arith) (omega arith) fresh [] (ℤ.pos 7)
      (ℤ.pos 8 ∷ []) fresh-Shows (omega arith)

-- One token for two sequences, in a batch with room for one sequence per token.
add-fault_example : add (ℤ.pos 7) (ℤ.pos 0) (ℤ.pos 0 ∷ ℤ.pos 1 ∷ []) true fresh ≡ fault
add-fault_example =
    add-fault 2 1 fresh [] (ℤ.pos 7) (ℤ.pos 0) (ℤ.pos 0 ∷ ℤ.pos 1 ∷ []) (ℤ.pos 0 ∷ []) true
      fresh-Shows (omega arith) refl (omega arith) (omega arith)
