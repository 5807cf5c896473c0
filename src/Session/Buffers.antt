-- ===== src/Session/Buffers.antt =====
-- The state of one sequence in a `SeqState`: what is captured, and how long it can be restored.
use llama_cpp_rs.Prelude.{
  ℕ, ◌≡◌, sym, ap, ◌∙◌, true, List, length, replicate, ==_iff, arith, ℤ, length-replicate,
}
use llama_cpp_rs.Prelude.Run.{ok}
use llama_cpp_rs.Session.{
  LlamaStateSeqFlags, on_device, contains, BufferApi, SeqState, byte_len, state_seq_get_size_ext,
  state_seq_get_data_ext, taken, state_seq_get, restored, state_seq_set,
}

-- A copy of the sequence `q` with the flags `f` invalidates the states of `seq` with `flags`: both stay on
-- the device, and the sequence is the same.
abbrev pub Invalidates : ℤ → LlamaStateSeqFlags → ℤ → LlamaStateSeqFlags → Type 0
Invalidates seq flags q f =
    (contains flags on_device ≡ true) × (contains f on_device ≡ true) × (q ≡ seq)

module _ {S : Type 0} (buffers : BufferApi S) (elsewhere : S → S → Type 0) where
  -- What the world can come to while the states of `seq` with `flags` stay valid: sequences are copied and
  -- restored, but for the copies that invalidate them, and `elsewhere` is what else llama.cpp does.
  pub data Later (seq : ℤ) (flags : LlamaStateSeqFlags) (s : S) : S → Type 0 where
    now : Later seq flags s s
    got :
        (t : S) (dest : List ℕ) (q : ℤ) (f : LlamaStateSeqFlags)
        → Later seq flags s t
        → (Invalidates seq flags q f → ⊥)
        → Later seq flags s (buffers.get_data dest q f.bits t).2
    set :
        (t : S) (src : List ℕ) (q : ℤ) (f : LlamaStateSeqFlags)
        → Later seq flags s t
        → Later seq flags s (buffers.set_data src q f.bits t).1
    changed : (t t' : S) → Later seq flags s t → elsewhere t t' → Later seq flags s t'

  -- llama.cpp's state of sequences: a copy keeps the size of the buffer. What a copy of `seq` in the world
  -- `s` has filled whole `Holds` in the world that the copy leaves and until a copy invalidates it,
  -- and where it holds it is read whole with the same flags, into any sequence.
  pub record Serializes : Type 1 where
    pub in_place :
        (dest : List ℕ) (seq : ℤ) (flags : ℕ) (s : S)
        → length (buffers.get_data dest seq flags s).1 ≡ length dest
    pub restore : ℤ → LlamaStateSeqFlags → S → ℤ → S → S
    pub Holds : ℤ → LlamaStateSeqFlags → S → List ℕ → S → Type 0
    pub copied :
        (seq : ℤ) (flags : LlamaStateSeqFlags) (s s' : S) (bytes : List ℕ)
        → buffers.get_data (replicate (buffers.get_size seq flags.bits s) 0) seq flags.bits s
          ≡ (buffers.get_size seq flags.bits s, bytes, s')
        → Holds seq flags s bytes s'
    pub kept_by_get :
        (seq : ℤ) (flags : LlamaStateSeqFlags) (s t : S) (bytes dest : List ℕ) (q : ℤ)
        (f : LlamaStateSeqFlags)
        → Holds seq flags s bytes t
        → (Invalidates seq flags q f → ⊥)
        → Holds seq flags s bytes (buffers.get_data dest q f.bits t).2
    pub kept_by_set :
        (seq : ℤ) (flags : LlamaStateSeqFlags) (s t : S) (bytes src : List ℕ) (q : ℤ)
        (f : LlamaStateSeqFlags)
        → Holds seq flags s bytes t
        → Holds seq flags s bytes (buffers.set_data src q f.bits t).1
    pub kept_elsewhere :
        (seq : ℤ) (flags : LlamaStateSeqFlags) (s t t' : S) (bytes : List ℕ)
        → Holds seq flags s bytes t
        → elsewhere t t'
        → Holds seq flags s bytes t'
    pub reads :
        (seq dest_seq : ℤ) (flags : LlamaStateSeqFlags) (s t : S) (bytes : List ℕ)
        → Holds seq flags s bytes t
        → buffers.set_data bytes dest_seq flags.bits t
          ≡ (length bytes, restore seq flags s dest_seq t)

module _ {S : Type 0} (buffers : BufferApi S) (elsewhere : S → S → Type 0)
    (law : Serializes buffers elsewhere) where
  Later-Holds :
      (seq : ℤ) (flags : LlamaStateSeqFlags) (s s' t : S) (bytes : List ℕ)
      → law.Holds seq flags s bytes s'
      → Later buffers elsewhere seq flags s' t
      → law.Holds seq flags s bytes t
  Later-Holds seq flags s s' t bytes h now = h
  Later-Holds seq flags s s' t bytes h (got u dest q f later valid) =
      law.kept_by_get seq flags s u bytes dest q f (Later-Holds seq flags s s' u bytes h later)
        valid
  Later-Holds seq flags s s' t bytes h (set u src q f later) =
      law.kept_by_set seq flags s u bytes src q f (Later-Holds seq flags s s' u bytes h later)
  Later-Holds seq flags s s' t bytes h (changed u t' later step) =
      law.kept_elsewhere seq flags s u t' bytes (Later-Holds seq flags s s' u bytes h later) step

  taken_inv :
      (size : ℕ) (flags : LlamaStateSeqFlags) (s' : S) (state : SeqState) (r : ℕ × List ℕ × S)
      → taken buffers size flags r ≡ ok state s'
      → (r ≡ (size, state.bytes, s')) × (state.flags ≡ flags)
  unfolding taken
  taken_inv size flags s' state (n, bytes, t) h = ground (arith, ==_iff n size)

  -- Where llama.cpp's copies are as `Serializes` says: a state that was captured has the size that
  -- llama.cpp reported and the flags of the capture. In every world that is reached without a
  -- copy that invalidates it (a capture of the same sequence that stays on the device, as the state's
  -- does), restoring it into any sequence succeeds and leaves what llama.cpp restores from the captured
  -- world with those flags.
  pub state_seq_get-set :
      (seq dest_seq : ℤ) (flags : LlamaStateSeqFlags) (s s' t : S) (state : SeqState)
      → state_seq_get buffers seq flags s ≡ ok state s'
      → Later buffers elsewhere seq flags s' t
      → (byte_len state ≡ buffers.get_size seq flags.bits s)
        × (state.flags ≡ flags)
        × (state_seq_set buffers state dest_seq t ≡ ok tt (law.restore seq flags s dest_seq t))
  unfolding state_seq_get state_seq_set restored byte_len state_seq_get_size_ext
      state_seq_get_data_ext
  state_seq_get-set seq dest_seq flags s s' t state h later =
      let size = buffers.get_size seq flags.bits s in
      let (r, same) =
        taken_inv size flags s' state (buffers.get_data (replicate size 0) seq flags.bits s) h in
      let whole = law.in_place (replicate size 0) seq flags.bits s in
      let held = law.copied seq flags s s' state.bytes r in
      let read =
        law.reads seq dest_seq flags s t state.bytes
          (Later-Holds seq flags s s' t state.bytes held later) in
      (
        ap (λ p. length p.1) (sym r) ∙ whole ∙ length-replicate size 0,
        same,
        ground (arith, same, read, ==_iff (length state.bytes) (length state.bytes)),
      )
