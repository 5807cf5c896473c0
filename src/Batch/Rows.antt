-- ===== src/Batch/Rows.antt =====
-- What `write_entry`, the `unsafe` block of `add`, leaves in the arrays.
use mathlib.Core.List.{append-nil, append_assoc}
use mathlib.Core.Path.{◌≡⟨◌⟩◌, ◌∎}
use native.Mathlib.Nat.{add-zero, zero-add}
use llama_cpp_rs.Prelude.{
  ℕ, suc, ◌+◌, ◌<◌, ◌≤◌, ◌≡◌, refl, ap, ◌∙◌, Bool, some, List, [], ◌∷◌, ◌++◌, arith, length, set,
  take, length-set, ℤ, i32_limit, to_i32, lt→ltb,
}
use llama_cpp_rs.Prelude.Run.{ok, or_panic, >>=-eq_of_ok}
use llama_cpp_rs.Prelude.Memory.{
  read, put, Spans, put_same, put-put, read-put_self, write_lem, Spans-put, take-suc-set,
}
use llama_cpp_rs.Batch.{
  RawBatch, BatchAddError, of_bool, set_token, set_pos, set_n_seq_id, set_logits, set_seq_id,
  set_seq_ids, write_entry, or_fault,
}
use llama_cpp_rs.Batch.View.{HasRoom}

-- The row after the ids are written from the place `k` on.
abbrev pub fill : ℕ → List ℤ → List ℤ → List ℤ
fill k [] row = row
fill k (id ∷ ids) row = fill (suc k) ids (set row k id)

pub length-fill : (k : ℕ) (ids row : List ℤ) → length (fill k ids row) ≡ length row
length-fill k [] row = refl
length-fill k (id ∷ ids) row = length-fill (suc k) ids (set row k id) ∙ length-set row k id

take-fill :
    (k : ℕ) (ids row : List ℤ)
    → k + length ids ≤ length row
    → take (k + length ids) (fill k ids row) ≡ take k row ++ ids
take-fill k [] row h = rw (add-zero, append-nil)
take-fill k (id ∷ ids) row h =
    take (k + suc (length ids)) (fill (suc k) ids (set row k id))
    ≡⟨ ap (λ n. take n (fill (suc k) ids (set row k id))) (omega arith) ⟩
      take (suc k + length ids) (fill (suc k) ids (set row k id))
    ≡⟨ take-fill (suc k) ids (set row k id) (omega (arith, length-set row k id)) ⟩
      take (suc k) (set row k id) ++ ids
    ≡⟨ ap (λ xs. xs ++ ids) (take-suc-set row k id (omega arith)) ⟩ (take k row ++ id ∷ []) ++ ids
    ≡⟨ append_assoc (take k row) (id ∷ []) ids ⟩ take k row ++ id ∷ ids ∎

pub take-fill_zero :
    (ids row : List ℤ) → length ids ≤ length row → take (length ids) (fill 0 ids row) ≡ ids
take-fill_zero ids row h = rw zero-add at (take-fill 0 ids row (omega arith))

set_seq_ids_lem :
    (i k n : ℕ) (ids row : List ℤ) (r : RawBatch)
    → Spans n r.seq_id
    → i < n
    → read r.seq_id i ≡ some (some row)
    → k + length ids ≤ length row
    → set_seq_ids i k ids r ≡ ok tt (record r { seq_id = put r.seq_id i (some (fill k ids row)) })
unfolding set_seq_ids set_seq_id
set_seq_ids_lem i k n [] row r s l e h = rw (put_same r.seq_id i (some row) e)
set_seq_ids_lem i k n (id ∷ ids) row r s l e h =
    >>=-eq_of_ok (set_seq_id i k id) (λ _. set_seq_ids i (suc k) ids)
      (rw (e, or_fault, write_lem (suc k) (some row) k id (row, refl, omega arith) (omega arith)))
    ∙ set_seq_ids_lem i (suc k) n ids (set row k id)
        (record r { seq_id = put r.seq_id i (some (set row k id)) }) (Spans-put n r.seq_id i _ s) l
        (read-put_self n r.seq_id i _ s l) (omega (arith, length-set row k id))
    ∙ rw (put-put r.seq_id i (some (set row k id)))

module _ (n i : ℕ) (v : ℤ) (r : RawBatch) where
  pub set_token_lem :
      Spans n r.token → i < n → set_token i v r ≡ ok tt (record r { token = put r.token i v })
  unfolding set_token
  set_token_lem s l = rw (write_lem n r.token i v s l, or_fault)

  pub set_pos_lem : Spans n r.pos → i < n → set_pos i v r ≡ ok tt (record r { pos = put r.pos i v })
  unfolding set_pos
  set_pos_lem s l = rw (write_lem n r.pos i v s l, or_fault)

  pub set_n_seq_id_lem :
      Spans n r.n_seq_id
      → i < n
      → set_n_seq_id i v r ≡ ok tt (record r { n_seq_id = put r.n_seq_id i v })
  unfolding set_n_seq_id
  set_n_seq_id_lem s l = rw (write_lem n r.n_seq_id i v s l, or_fault)

  set_logits_lem :
      Spans n r.logits → i < n → set_logits i v r ≡ ok tt (record r { logits = put r.logits i v })
  unfolding set_logits
  set_logits_lem s l = rw (write_lem n r.logits i v s l, or_fault)

pub to_i32_lem :
    (n : ℕ) (r : RawBatch)
    → n < i32_limit
    → or_panic {E = BatchAddError} (to_i32 n) r ≡ ok (ℤ.pos n) r
to_i32_lem n r h = rw (lt→ltb _ _ h)

abbrev pub written : RawBatch → ℕ → ℤ → ℤ → List ℤ → Bool → List ℤ → RawBatch
written r i id at ids logits row = record {
  n_tokens = r.n_tokens;
  token = put r.token i id;
  pos = put r.pos i at;
  n_seq_id = put r.n_seq_id i (ℤ.pos (length ids));
  seq_id = put r.seq_id i (some (fill 0 ids row));
  logits = put r.logits i (of_bool logits);
}

pub write_entry_lem :
    (size width i : ℕ) (id at : ℤ) (ids : List ℤ) (logits : Bool) (row : List ℤ) (r : RawBatch)
    → HasRoom size width r
    → i < size
    → read r.seq_id i ≡ some (some row)
    → length ids ≤ length row
    → length ids < i32_limit
    → write_entry i id at ids logits r ≡ ok tt (written r i id at ids logits row)
unfolding write_entry
write_entry_lem size width i id at ids logits row r room l e h small =
    >>=-eq_of_ok (set_token i id) _ (set_token_lem size i id r room.token l)
    ∙ >>=-eq_of_ok (set_pos i at) _ (set_pos_lem size i at _ room.pos l)
    ∙ >>=-eq_of_ok (or_panic (to_i32 (length ids))) _ (to_i32_lem (length ids) _ small)
    ∙ >>=-eq_of_ok (set_n_seq_id i _) _ (set_n_seq_id_lem size i _ _ room.n_seq_id l)
    ∙ >>=-eq_of_ok (set_seq_ids i 0 ids) _
        (set_seq_ids_lem i 0 size ids row _ room.seq_id l e (omega arith))
    ∙ set_logits_lem size i (of_bool logits) _ room.logits l
