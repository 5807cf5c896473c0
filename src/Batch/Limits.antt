-- ===== src/Batch/Limits.antt =====
-- Where `add` and `add_sequence` stop: at the capacity, and past the end of a row of sequence ids.
use native.Mathlib.Decide.{dec_lt}
use llama_cpp_rs.Prelude.{
  ℕ, suc, ◌+◌, ◌<◌, ◌≤◌, ◌≡◌, refl, ◌∙◌, Bool, some, List, [], ◌∷◌, arith, length, set, length-set,
  ℤ, i32_limit,
}
use llama_cpp_rs.Prelude.Run.{err, fault, or_panic, >>=-eq_of_ok, >>=-eq_of_fault}
use llama_cpp_rs.Prelude.Memory.{
  read, put, Spans, read-put_self, write_lem, Spans-put, write_beyond,
}
use llama_cpp_rs.Batch.{
  RawBatch, LlamaBatch, insufficient_space, set_seq_id, set_seq_ids, write_entry, place, add,
  add_sequence, or_fault, set_token, set_pos, set_n_seq_id,
}
use llama_cpp_rs.Batch.View.{Entry, HasRoom, Shows}
use llama_cpp_rs.Batch.Rows.{set_token_lem, set_pos_lem, set_n_seq_id_lem, to_i32_lem}
use llama_cpp_rs.Batch.Adding.{inc_i32_lem}

module _ (size width : ℕ) (b : LlamaBatch) (es : List Entry) (shows : Shows size width b es) where
  -- A sequence that does not fit in what is left of a batch is refused whole with the batch's capacity,
  -- and the batch stays as it was.
  add_sequence-full :
      (tokens : List ℤ) (seq_id : ℤ) (all : Bool)
      → size < length es + length tokens
      → add_sequence tokens seq_id all b ≡ err (insufficient_space size) b
  unfolding add_sequence
  add_sequence-full tokens seq_id all h = ground (arith, shows.n_tokens, shows.allocated)

set_seq_ids-fault :
    (i k n : ℕ) (ids row : List ℤ) (r : RawBatch)
    → Spans n r.seq_id
    → i < n
    → read r.seq_id i ≡ some (some row)
    → k ≤ length row
    → length row < k + length ids
    → set_seq_ids i k ids r ≡ fault
unfolding set_seq_ids set_seq_id
set_seq_ids-fault i k n [] row r s l e below h = absurd (omega arith)
set_seq_ids-fault i k n (id ∷ ids) row r s l e below h = elim (dec_lt k (length row)) [
  | yes p ↦
      >>=-eq_of_ok (set_seq_id i k id) (λ _. set_seq_ids i (suc k) ids)
        (rw (e, or_fault, write_lem (suc k) (some row) k id (row, refl, omega arith) (omega arith)))
      ∙ set_seq_ids-fault i (suc k) n ids (set row k id)
          (record r { seq_id = put r.seq_id i (some (set row k id)) }) (Spans-put n r.seq_id i _ s)
          l (read-put_self n r.seq_id i _ s l) (omega (arith, length-set row k id))
          (omega (arith, length-set row k id))
  | no p ↦
      >>=-eq_of_fault (set_seq_id i k id) (λ _. set_seq_ids i (suc k) ids)
        (rw (e, or_fault, write_beyond row k id (omega arith)))
]

write_entry-fault :
    (size width i : ℕ) (id at : ℤ) (ids : List ℤ) (logits : Bool) (row : List ℤ) (r : RawBatch)
    → HasRoom size width r
    → i < size
    → read r.seq_id i ≡ some (some row)
    → length row < length ids
    → length ids < i32_limit
    → write_entry i id at ids logits r ≡ fault
unfolding write_entry
write_entry-fault size width i id at ids logits row r room l e h small =
    >>=-eq_of_ok (set_token i id) _ (set_token_lem size i id r room.token l)
    ∙ >>=-eq_of_ok (set_pos i at) _ (set_pos_lem size i at _ room.pos l)
    ∙ >>=-eq_of_ok (or_panic _) _ (to_i32_lem (length ids) _ small)
    ∙ >>=-eq_of_ok (set_n_seq_id i _) _ (set_n_seq_id_lem size i _ _ room.n_seq_id l)
    ∙ >>=-eq_of_fault (set_seq_ids i 0 ids) _
        (set_seq_ids-fault i 0 size ids row _ room.seq_id l e (omega arith) (omega arith))

-- On a batch with room, `add` with more sequence ids than the row of the next token holds, though no
-- more than an `i32` counts, writes past the end of the row.
pub add-fault :
    (size width : ℕ) (b : LlamaBatch) (es : List Entry) (id at : ℤ) (ids row : List ℤ)
    (logits : Bool)
    → Shows size width b es
    → length es < size
    → read b.llama_batch.seq_id (length es) ≡ some (some row)
    → length row < length ids
    → length ids < i32_limit
    → add id at ids logits b ≡ fault
unfolding add place
add-fault size width b es id at ids row logits shows room found long small = ground (
  arith,
  shows.n_tokens,
  shows.allocated,
  shows.small,
  inc_i32_lem (length es),
  write_entry-fault size width (length es) id at ids logits row b.llama_batch shows.room room found
      long small,
)
