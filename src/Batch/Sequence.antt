-- ===== src/Batch/Sequence.antt =====
-- `add_sequence`, `new` and `clear` against the list of entries.
use mathlib.Core.List.{append-nil, append_assoc}
use llama_cpp_rs.Prelude.{
  ℕ, suc, ◌+◌, ◌-◌, ◌<◌, ◌≤◌, ◌≡◌, refl, ◌∙◌, Bool, true, ◌||◌, some, List, [], ◌∷◌, ◌++◌, arith,
  length, ℤ, i32_limit, lt→ltb, length-append, ◌==◌,
}
use llama_cpp_rs.Prelude.Run.{ok, >>=-eq_of_ok}
use llama_cpp_rs.Batch.{LlamaBatch, BatchApi, add, add_from, add_sequence, clear, new}
use llama_cpp_rs.Batch.View.{Entry, HasRoom, Shows}
use llama_cpp_rs.Batch.Adding.{add-Shows}

-- The entries of a sequence: positions count from `i`, and the last token asks for logits.
abbrev pub sequence : ℕ → ℤ → Bool → List ℤ → List Entry
sequence i seq_id all [] = []
sequence i seq_id all (t ∷ []) =
    record { token = t; at = ℤ.pos i; seq_ids = seq_id ∷ []; logits = true } ∷ []
sequence i seq_id all (t ∷ u ∷ us) =
    record { token = t; at = ℤ.pos i; seq_ids = seq_id ∷ []; logits = all }
    ∷ sequence (suc i) seq_id all (u ∷ us)

abbrev pub entry : ℕ → ℤ → Bool → ℤ → Entry
entry i seq_id logits t = record { token = t; at = ℤ.pos i; seq_ids = seq_id ∷ []; logits = logits }

module _ (size width : ℕ) (seq_id : ℤ) (all : Bool) (wide : 1 ≤ width)
    (small : width < i32_limit) where
  add_one-Shows :
      (i : ℕ) (t : ℤ) (flag logits : Bool) (b : LlamaBatch) (es : List Entry)
      → flag ≡ logits
      → Shows size width b es
      → length es < size
      → (b' : LlamaBatch) × (add t (ℤ.pos i) (seq_id ∷ []) flag b ≡ ok tt b')
        × Shows size width b' (es ++ entry i seq_id logits t ∷ [])
  add_one-Shows i t flag logits b es same shows room =
      rw same (add-Shows size width b es shows (entry i seq_id logits t) room (omega arith) small)

  add_from-Shows :
      (i last : ℕ) (tokens : List ℤ) (b : LlamaBatch) (es : List Entry)
      → Shows size width b es
      → length es + length tokens ≤ size
      → last + 1 ≡ i + length tokens
      → (b' : LlamaBatch) × (add_from i last seq_id all tokens b ≡ ok tt b')
        × Shows size width b' (es ++ sequence i seq_id all tokens)
  unfolding add_from
  add_from-Shows i last [] b es shows room end = (b, refl, rw (append-nil es) shows)
  add_from-Shows i last (t ∷ []) b es shows room end =
      let (b', ran, shows') =
        add_one-Shows i t (all || i == last) true b es (ground arith) shows (omega arith) in
      (b', >>=-eq_of_ok (add t (ℤ.pos i) (seq_id ∷ []) (all || i == last)) _ ran, shows')
  add_from-Shows i last (t ∷ u ∷ us) b es shows room end =
      let (b', ran, shows') =
        add_one-Shows i t (all || i == last) all b es (ground arith) shows (omega arith) in
      let (b'', rest, shows'') =
        add_from-Shows (suc i) last (u ∷ us) b' (es ++ entry i seq_id all t ∷ []) shows'
          (omega (arith, length-append es (entry i seq_id all t ∷ []))) (omega arith) in
      (
        b'',
        >>=-eq_of_ok (add t (ℤ.pos i) (seq_id ∷ []) (all || i == last)) _ ran ∙ rest,
        rw append_assoc at shows'',
      )

  -- A sequence of at least one token that fits in what is left of a batch, whose rows hold one
  -- sequence id at least, is added whole, token by token from position 0; its last token asks for
  -- logits whatever the flag says, the others if the flag says so.
  pub add_sequence-Shows :
      (b : LlamaBatch) (es : List Entry) (t : ℤ) (ts : List ℤ)
      → Shows size width b es
      → length es + length (t ∷ ts) ≤ size
      → (b' : LlamaBatch) × (add_sequence (t ∷ ts) seq_id all b ≡ ok tt b')
        × Shows size width b' (es ++ sequence 0 seq_id all (t ∷ ts))
  unfolding add_sequence
  add_sequence-Shows b es t ts shows room =
      let (b', ran, shows') =
        add_from-Shows 0 (length (t ∷ ts) - 1) (t ∷ ts) b es shows room (omega arith) in
      (b', ground (arith, shows.n_tokens, shows.allocated, shows.small, ran), shows')

-- Clearing a batch leaves it without entries, with the capacity and the arrays that it had.
clear-Shows :
    (size width : ℕ) (b : LlamaBatch) (es : List Entry)
    → Shows size width b es
    → Shows size width (clear b) []
unfolding clear
clear-Shows size width b es s = record {
  small = s.small;
  allocated = s.allocated;
  fits = omega arith;
  n_tokens = refl;
  room = record {
    token = s.room.token;
    pos = s.room.pos;
    n_seq_id = s.room.n_seq_id;
    seq_id = s.room.seq_id;
    logits = s.room.logits;
    row = s.room.row;
  };
  entries = λ i e h. cc;
  marked = refl;
}

-- `llama_batch_init` gives an empty batch whose arrays have the room that was asked for.
abbrev pub Allocates : BatchApi → Type 0
Allocates api =
    (n w : ℕ)
    → n < i32_limit
    → w < i32_limit
    → (api.llama_batch_init (ℤ.pos n) (ℤ.pos 0) (ℤ.pos w)).n_tokens ≡ ℤ.pos 0
      × HasRoom n w (api.llama_batch_init (ℤ.pos n) (ℤ.pos 0) (ℤ.pos w))

-- Where llama.cpp allocates what is asked for, a new batch of an `i32` capacity and width holds no
-- entry and has that capacity and width.
new-Shows :
    (api : BatchApi) (n w : ℕ)
    → Allocates api
    → n < i32_limit
    → w < i32_limit
    → (b : LlamaBatch) × (new api n (ℤ.pos w) ≡ some b) × Shows n w b []
unfolding new
new-Shows api n w allocates h k =
    let (empty, room) = allocates n w h k in
    (
      record {
        allocated = n;
        initialized_logits = [];
        llama_batch = api.llama_batch_init (ℤ.pos n) (ℤ.pos 0) (ℤ.pos w);
      },
      rw (lt→ltb _ _ h, new),
      record {
        small = h;
        allocated = refl;
        fits = omega arith;
        n_tokens = empty;
        room = room;
        entries = λ i e p. cc;
        marked = refl;
      },
    )
