-- ===== src/Batch/View.antt =====
-- What a `LlamaBatch` stands for: the entries that were added since it was cleared.
use llama_cpp_rs.Prelude.{
  ℕ, suc, ◌<◌, ◌≤◌, ◌≡◌, Bool, some, List, [], ◌∷◌, length, get_elem?, take, ℤ, i32_limit,
  if◌then◌else◌,
}
use llama_cpp_rs.Prelude.Memory.{read, Spans}
use llama_cpp_rs.Batch.{RawBatch, LlamaBatch, of_bool}

pub record Entry : Type 0 where
  pub token : ℤ
  pub at : ℤ
  pub seq_ids : List ℤ
  pub logits : Bool

-- Every array holds `cap` elements, and each row of sequence ids `width`.
pub record HasRoom (cap width : ℕ) (r : RawBatch) : Type 0 where
  pub token : Spans cap r.token
  pub pos : Spans cap r.pos
  pub n_seq_id : Spans cap r.n_seq_id
  pub seq_id : Spans cap r.seq_id
  pub logits : Spans cap r.logits
  pub row :
      (i : ℕ) → i < cap → (xs : List ℤ) × (read r.seq_id i ≡ some (some xs)) × (width ≤ length xs)

-- The arrays hold the entry `e` at the index `i`.
pub record EntryAt (r : RawBatch) (i : ℕ) (e : Entry) : Type 0 where
  pub token : read r.token i ≡ some e.token
  pub pos : read r.pos i ≡ some e.at
  pub n_seq_id : read r.n_seq_id i ≡ some (ℤ.pos (length e.seq_ids))
  pub logits : read r.logits i ≡ some (of_bool e.logits)
  pub row :
      (xs : List ℤ) × (read r.seq_id i ≡ some (some xs)) × (take (length e.seq_ids) xs ≡ e.seq_ids)

-- The indices from `k` on of the entries that ask for logits.
abbrev pub outputs : ℕ → List Entry → List ℤ
outputs k [] = []
outputs k (e ∷ es) = let rest = outputs (suc k) es in if e.logits then ℤ.pos k ∷ rest else rest

-- `b` is an owned batch of capacity `cap` that holds exactly the entries `es`.
pub record Shows (cap width : ℕ) (b : LlamaBatch) (es : List Entry) : Type 0 where
  pub small : cap < i32_limit
  pub allocated : b.allocated ≡ cap
  pub fits : length es ≤ cap
  pub n_tokens : b.llama_batch.n_tokens ≡ ℤ.pos (length es)
  pub room : HasRoom cap width b.llama_batch
  pub entries : (i : ℕ) (e : Entry) → get_elem? es i ≡ some e → EntryAt b.llama_batch i e
  pub marked : b.initialized_logits ≡ outputs 0 es
