-- ===== src/Batch/Adding.antt =====
-- `add`, `add_sequence`, `clear` and `new` against the list of entries that a batch stands for.
use mathlib.Core.List.{append-nil}
use native.Mathlib.Nat.{zero-add, add-zero, add-suc, suc-add}
use native.Mathlib.Decide.{ℕ_discrete}
use llama_cpp_rs.Prelude.{
  ℕ, suc, ◌+◌, ◌<◌, ◌≤◌, ◌≡◌, ◌≢◌, refl, ap, sym, ◌∙◌, inl, inr, Bool, some, List, [], ◌∷◌, ◌++◌,
  arith, length, get_elem?, ℤ, i32_limit, lt→ltb, length-append, get_elem?-append_one,
  if◌then◌else◌,
}
use llama_cpp_rs.Prelude.Run.{ok}
use llama_cpp_rs.Prelude.Memory.{read, read-put_ne, read-put_self, Spans-put}
use llama_cpp_rs.Batch.{RawBatch, LlamaBatch, add, place, inc_i32, mark, without}
use llama_cpp_rs.Batch.View.{Entry, HasRoom, EntryAt, Shows, outputs}
use llama_cpp_rs.Batch.Rows.{fill, length-fill, take-fill_zero, written, write_entry_lem}

module _ (size width i : ℕ) (e : Entry) (xs : List ℤ) (r : RawBatch) (room : HasRoom size width r)
    (l : i < size) (found : read r.seq_id i ≡ some (some xs))
    (fits : length e.seq_ids ≤ length xs) where
  abbrev after : RawBatch
  after = written r i e.token e.at e.seq_ids e.logits xs

  row_after :
      width ≤ length xs
      → (j : ℕ) → j < size
      → (ys : List ℤ) × (read after.seq_id j ≡ some (some ys)) × (width ≤ length ys)
  row_after w j h = elim (ℕ_discrete i j) [
    | yes p ↦ (
      fill 0 e.seq_ids xs,
      rw (← p) (read-put_self size r.seq_id i _ room.seq_id l),
      omega (arith, length-fill 0 e.seq_ids xs),
    )
    | no n ↦ let (ys, a, b) = room.row j h in (ys, read-put_ne r.seq_id i j _ n ∙ a, b)
  ]

  written-HasRoom : width ≤ length xs → HasRoom size width after
  written-HasRoom w = record {
    token = Spans-put size r.token i _ room.token;
    pos = Spans-put size r.pos i _ room.pos;
    n_seq_id = Spans-put size r.n_seq_id i _ room.n_seq_id;
    seq_id = Spans-put size r.seq_id i _ room.seq_id;
    logits = Spans-put size r.logits i _ room.logits;
    row = row_after w;
  }

  written-EntryAt : EntryAt after i e
  written-EntryAt = record {
    token = read-put_self size r.token i _ room.token l;
    pos = read-put_self size r.pos i _ room.pos l;
    n_seq_id = read-put_self size r.n_seq_id i _ room.n_seq_id l;
    logits = read-put_self size r.logits i _ room.logits l;
    row = (
      fill 0 e.seq_ids xs,
      read-put_self size r.seq_id i _ room.seq_id l,
      take-fill_zero e.seq_ids xs fits,
    );
  }

  written-EntryAt_ne : (j : ℕ) (d : Entry) → i ≢ j → EntryAt r j d → EntryAt after j d
  written-EntryAt_ne j d n h = record {
    token = read-put_ne r.token i j _ n ∙ h.token;
    pos = read-put_ne r.pos i j _ n ∙ h.pos;
    n_seq_id = read-put_ne r.n_seq_id i j _ n ∙ h.n_seq_id;
    logits = read-put_ne r.logits i j _ n ∙ h.logits;
    row = let (ys, a, b) = h.row in (ys, read-put_ne r.seq_id i j _ n ∙ a, b);
  }

abbrev marked_at : ℕ → Bool → List ℤ
marked_at k logits = if logits then ℤ.pos k ∷ [] else []

outputs-append :
    (k : ℕ) (es : List Entry) (e : Entry)
    → outputs k (es ++ e ∷ []) ≡ outputs k es ++ marked_at (k + length es) e.logits
outputs-append k [] e = rw add-zero (ground arith)
outputs-append k (d ∷ es) e =
    ground (arith, outputs-append (suc k) es e, add-suc k (length es), suc-add k (length es))

-- The indices that `outputs` lists lie below the end, so `retain` removes none of them.
without-outputs :
    (k n : ℕ) (es : List Entry)
    → k + length es ≤ n
    → without (ℤ.pos n) (outputs k es) ≡ outputs k es
unfolding without
without-outputs k n [] h = refl
without-outputs k n (d ∷ es) h = ground (arith, without-outputs (suc k) n es)

mark-outputs :
    (es : List Entry) (e : Entry)
    → mark (ℤ.pos (length es)) e.logits (outputs 0 es) ≡ outputs 0 (es ++ e ∷ [])
unfolding mark
mark-outputs es e = ground (
  arith,
  outputs-append 0 es e,
  without-outputs 0 (length es) es,
  append-nil (outputs 0 es),
  zero-add (length es),
)

-- The batch after `add` wrote the entry `e` at the index `i`, over the row `xs`.
abbrev added : LlamaBatch → ℕ → Entry → List ℤ → LlamaBatch
added b i e xs = record {
  allocated = b.allocated;
  initialized_logits = mark (ℤ.pos i) e.logits b.initialized_logits;
  llama_batch = record (written b.llama_batch i e.token e.at e.seq_ids e.logits xs) {
    n_tokens = ℤ.pos (i + 1);
  };
}

pub inc_i32_lem : (n : ℕ) → n + 1 < i32_limit → inc_i32 (ℤ.pos n) ≡ some (ℤ.pos (n + 1))
unfolding inc_i32
inc_i32_lem n h = rw (lt→ltb _ _ h)

module _ (size width : ℕ) (b : LlamaBatch) (es : List Entry) (shows : Shows size width b es)
    (e : Entry) where
  add_lem :
      (xs : List ℤ)
      → length es < size
      → read b.llama_batch.seq_id (length es) ≡ some (some xs)
      → length e.seq_ids ≤ length xs
      → length e.seq_ids < i32_limit
      → add e.token e.at e.seq_ids e.logits b ≡ ok tt (added b (length es) e xs)
  unfolding add place
  add_lem xs room found fits small = ground (
    arith,
    shows.n_tokens,
    shows.allocated,
    shows.small,
    inc_i32_lem (length es),
    write_entry_lem size width (length es) e.token e.at e.seq_ids e.logits xs b.llama_batch
        shows.room room found fits small,
  )

  added-EntryAt :
      (xs : List ℤ)
      → length es < size
      → read b.llama_batch.seq_id (length es) ≡ some (some xs)
      → length e.seq_ids ≤ length xs
      → (i : ℕ) (d : Entry) → get_elem? (es ++ e ∷ []) i ≡ some d
      → EntryAt (added b (length es) e xs).llama_batch i d
  added-EntryAt xs room found fits i d h = elim (get_elem?-append_one es e d i h) [
    | inl (old, below) ↦ renumber _ (
        written-EntryAt_ne size width (length es) e xs b.llama_batch shows.room room found fits i d
          (λ p. absurd (omega arith)) (shows.entries i d old))
    | inr (at, same) ↦
        rw (at, ← same)
          (renumber _
            (written-EntryAt size width (length es) e xs b.llama_batch shows.room room found fits))
  ]
    where
      renumber :
          (r : RawBatch) {n : ℤ} {j : ℕ} {x : Entry}
          → EntryAt r j x
          → EntryAt (record r { n_tokens = n }) j x
      renumber r h = record {
        token = h.token;
        pos = h.pos;
        n_seq_id = h.n_seq_id;
        logits = h.logits;
        row = h.row;
      }

  -- A batch with room for a token takes one more entry behind those that it holds, if the row of a
  -- token has room for its sequence ids.
  pub add-Shows :
      length es < size
      → length e.seq_ids ≤ width
      → width < i32_limit
      → (b' : LlamaBatch) × (add e.token e.at e.seq_ids e.logits b ≡ ok tt b')
        × Shows size width b' (es ++ e ∷ [])
  add-Shows room fits small =
      let (xs, found, wide) = shows.room.row (length es) room in
      let w =
        written-HasRoom size width (length es) e xs b.llama_batch shows.room room found
          (omega arith) wide in
      (
        added b (length es) e xs,
        add_lem xs room found (omega arith) (omega arith),
        record {
          small = shows.small;
          allocated = shows.allocated;
          fits = omega (arith, length-append es (e ∷ []));
          n_tokens = ap ℤ.pos (sym (length-append es (e ∷ [])));
          room = record {
            token = w.token;
            pos = w.pos;
            n_seq_id = w.n_seq_id;
            seq_id = w.seq_id;
            logits = w.logits;
            row = w.row;
          };
          entries = added-EntryAt xs room found (omega arith);
          marked = ap (mark (ℤ.pos (length es)) e.logits) shows.marked ∙ mark-outputs es e;
        },
      )
