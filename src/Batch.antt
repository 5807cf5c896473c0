-- ===== src/Batch.antt =====
-- llama-cpp-2/src/llama_batch.rs: `LlamaBatch`, the arrays of a `llama_batch` that C allocated, and
-- what each method writes to them. `llama_batch_init` and `llama_batch_get_one` are parameters.
pub mod View
pub mod Rows
pub mod Adding
pub mod Sequence
pub mod Limits
use llama_cpp_rs.Prelude.{
  ℕ, suc, ◌+◌, ◌-◌, Bool, true, false, ◌||◌, Option, none, some, List, [], ◌∷◌, ◌++◌, ltb, ◌==◌,
  length, if◌then◌else◌, ℤ, int_eqb, to_i32, to_usize, i32_limit,
}
use llama_cpp_rs.Prelude.Run.{
  Run, ok, err, panic, fault, Method, ◌>>=◌, ◌>>◌, pure, throw, or_panic, gets,
}
use llama_cpp_rs.Prelude.Memory.{Ptr, read, put, write}

-- `llama_batch`, as far as the crate reads it
pub record RawBatch : Type 0 where
  pub n_tokens : ℤ
  pub token : Ptr ℤ
  pub pos : Ptr ℤ
  pub n_seq_id : Ptr ℤ
  pub seq_id : Ptr (Ptr ℤ)
  pub logits : Ptr ℤ

pub record LlamaBatch : Type 0 where
  pub allocated : ℕ
  pub initialized_logits : List ℤ
  pub llama_batch : RawBatch

pub data BatchAddError : Type 0 where
  insufficient_space : ℕ → BatchAddError
  empty_buffer : BatchAddError

-- `n + 1` on an `i32`; at `i32::MAX` it panics, or it wraps to a number that no `usize` holds.
unfoldable pub inc_i32 : ℤ → Option ℤ
inc_i32 (ℤ.pos n) = to_i32 (n + 1)
inc_i32 (ℤ.negsuc ℕ.zero) = some (ℤ.pos 0)
inc_i32 (ℤ.negsuc (suc n)) = some (ℤ.negsuc n)

unfoldable pub clear : LlamaBatch → LlamaBatch
clear b = record {
  allocated = b.allocated;
  initialized_logits = [];
  llama_batch = record b.llama_batch { n_tokens = ℤ.pos 0 };
}

abbrev pub Write : Type 0
Write = Method RawBatch BatchAddError Unit

-- a write that Rust leaves undefined is a fault
abbrev pub or_fault {ℓ} : {A S E B : Type ℓ} → Option A → (A → Run S E B) → Run S E B
or_fault none k = fault
or_fault (some a) k = k a

unfoldable pub set_token : ℕ → ℤ → Write
set_token i v r = or_fault (write r.token i v) λ p. ok tt (record r { token = p })

unfoldable pub set_pos : ℕ → ℤ → Write
set_pos i v r = or_fault (write r.pos i v) λ p. ok tt (record r { pos = p })

unfoldable pub set_n_seq_id : ℕ → ℤ → Write
set_n_seq_id i v r = or_fault (write r.n_seq_id i v) λ p. ok tt (record r { n_seq_id = p })

unfoldable pub set_logits : ℕ → ℤ → Write
set_logits i v r = or_fault (write r.logits i v) λ p. ok tt (record r { logits = p })

-- `let tmp = *seq_id.add(i); tmp.add(k).write(id)`
unfoldable pub set_seq_id : ℕ → ℕ → ℤ → Write
set_seq_id i k id r =
    or_fault (read r.seq_id i)
      λ row. or_fault (write row k id) λ row'. ok tt (record r { seq_id = put r.seq_id i row' })

-- the loop over `seq_ids.iter().enumerate()` from the index `k` on
unfoldable pub set_seq_ids : ℕ → ℕ → List ℤ → Write
set_seq_ids i k [] = pure tt
set_seq_ids i k (id ∷ ids) = set_seq_id i k id >> set_seq_ids i (suc k) ids

abbrev pub of_bool : Bool → ℤ
of_bool true = ℤ.pos 1
of_bool false = ℤ.pos 0

-- the `unsafe` block of `add`
unfoldable pub write_entry : ℕ → ℤ → ℤ → List ℤ → Bool → Write
write_entry i id at seq_ids logits = do
  set_token i id
  set_pos i at
  n ← or_panic (to_i32 (length seq_ids))
  set_n_seq_id i n
  set_seq_ids i 0 seq_ids
  set_logits i (of_bool logits)

-- `initialized_logits.retain(|l| l != &offset)`
unfoldable pub without : ℤ → List ℤ → List ℤ
without x [] = []
without x (y ∷ ys) = let rest = without x ys in if int_eqb y x then rest else y ∷ rest

unfoldable pub mark : ℤ → Bool → List ℤ → List ℤ
mark offset true is = is ++ offset ∷ []
mark offset false is = without offset is

-- what `add` does after its test
unfoldable pub place : ℤ → ℤ → List ℤ → Bool → LlamaBatch → Run LlamaBatch BatchAddError Unit
place id at seq_ids logits b = elim (to_usize b.llama_batch.n_tokens) [
  | none ↦ panic
  | some i ↦ elim (write_entry i id at seq_ids logits b.llama_batch) [
    | ok _ r ↦ elim (inc_i32 r.n_tokens) [
      | none ↦ panic
      | some n ↦ ok tt (record {
        allocated = b.allocated;
        initialized_logits = mark b.llama_batch.n_tokens logits b.initialized_logits;
        llama_batch = record r { n_tokens = n };
      })
    ]
    | err e r ↦ err e (record b { llama_batch = r })
    | panic ↦ panic
    | fault ↦ fault
  ]
]

abbrev pub and_then {ℓ} : {A B : Type ℓ} → Option A → (A → Option B) → Option B
and_then none f = none
and_then (some a) f = f a

unfoldable pub add : ℤ → ℤ → List ℤ → Bool → Method LlamaBatch BatchAddError Unit
add id at seq_ids logits b = elim (and_then (inc_i32 b.llama_batch.n_tokens) to_usize) [
  | none ↦ panic
  | some wanted ↦
      if ltb b.allocated wanted
      then err (insufficient_space b.allocated) b
      else place id at seq_ids logits b
]

-- the loop of `add_sequence` from the position `i` on; `last` is `last_index`
unfoldable pub add_from : ℕ → ℕ → ℤ → Bool → List ℤ → Method LlamaBatch BatchAddError Unit
add_from i last seq_id logits_all [] = pure tt
add_from i last seq_id logits_all (token ∷ tokens) =
    add token (ℤ.pos i) (seq_id ∷ []) (logits_all || i == last)
    >> add_from (suc i) last seq_id logits_all tokens

unfoldable pub add_sequence : List ℤ → ℤ → Bool → Method LlamaBatch BatchAddError Unit
add_sequence tokens seq_id logits_all b = elim (to_usize b.llama_batch.n_tokens) [
  | none ↦ panic
  | some n_tokens_0 ↦
      if ltb b.allocated (n_tokens_0 + length tokens)
      then err (insufficient_space b.allocated) b
      else (if ltb (length tokens - 1) i32_limit
          then add_from 0 (length tokens - 1) seq_id logits_all tokens b
          else panic)
]

-- The functions of llama.cpp that allocate or borrow the arrays.
pub record BatchApi : Type 0 where
  pub llama_batch_init : ℤ → ℤ → ℤ → RawBatch
  pub llama_batch_get_one : List ℤ → ℤ → RawBatch

unfoldable pub new : BatchApi → ℕ → ℤ → Option LlamaBatch
new api n_tokens n_seq_max = elim (to_i32 n_tokens) [
  | none ↦ none
  | some n ↦ some (record {
    allocated = n_tokens;
    initialized_logits = [];
    llama_batch = api.llama_batch_init n (ℤ.pos 0) n_seq_max;
  })
]

unfoldable pub get_one : BatchApi → List ℤ → Run (Unit {0}) BatchAddError LlamaBatch
get_one api [] = err empty_buffer tt
get_one api (t ∷ ts) = elim (to_i32 (length (t ∷ ts))) [
  | none ↦ panic
  | some n ↦
      ok
        (record {
          allocated = 0;
          initialized_logits = ℤ.pos (length ts) ∷ [];
          llama_batch = api.llama_batch_get_one (t ∷ ts) n;
        })
        tt
]

unfoldable pub n_tokens : LlamaBatch → ℤ
n_tokens b = b.llama_batch.n_tokens

-- `Drop` frees the arrays that `new` allocated, and none of a borrowed batch.
unfoldable pub frees : LlamaBatch → Bool
frees b = ltb 0 b.allocated
