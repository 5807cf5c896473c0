-- ===== src/Context/Logits.antt =====
-- llama-cpp-2/src/context.rs: the readouts of logits and embeddings. The arrays that llama.cpp hands
-- out, and the sizes that the model reports, are parameters.
pub mod Marks
use llama_cpp_rs.Prelude.{
  ℕ, suc, Bool, true, false, Option, none, some, List, [], ◌∷◌, length, take, leb, ltb,
  if◌then◌else◌, ◌||◌, ℤ, int_eqb, to_usize,
}
use llama_cpp_rs.Prelude.Run.{Run, ok, err, panic, fault, Method, ◌>>=◌}
use llama_cpp_rs.Context.{LlamaContext}

-- What llama.cpp answers: an array by the values that stand behind its pointer, none for null.
pub record Readout (F : Type 0) : Type 0 where
  pub n_vocab : ℤ
  pub n_embd_out : ℤ
  pub n_cls_out : ℕ
  pub is_rank : Bool
  pub logits : Option (List F)
  pub logits_ith : ℤ → Option (List F)
  pub embeddings_seq : ℤ → Option (List F)
  pub embeddings_ith : ℤ → Option (List F)

pub data EmbeddingsError : Type 0 where
  embeddings_not_enabled logits_not_enabled none_pool_type : EmbeddingsError

-- `LlamaTokenData` with its `id`, `logit` and `p`
pub record LlamaTokenData (F : Type 0) : Type 0 where
  pub id : ℤ
  pub logit : F
  pub p : F

pub record LlamaTokenDataArray (F : Type 0) : Type 0 where
  pub data_of : List (LlamaTokenData F)
  pub selected : Option ℕ
  pub sorted : Bool

-- `slice::from_raw_parts`
unfoldable pub from_raw_parts : {S E F : Type 0} → Option (List F) → ℕ → Method S E (List F)
from_raw_parts none len s = fault
from_raw_parts (some xs) len s = if leb len (length xs) then ok (take len xs) s else fault

-- `contains(&i)`
unfoldable pub is_initialized : ℤ → List ℤ → Bool
is_initialized i [] = false
is_initialized i (x ∷ xs) = int_eqb x i || is_initialized i xs

-- `self.n_ctx() > u32::try_from(i).expect(…)`
unfoldable pub below_n_ctx : {S E : Type 0} → ℕ → ℤ → Method S E (Unit {0})
below_n_ctx n_ctx (ℤ.pos i) s = if ltb i n_ctx then ok tt s else panic
below_n_ctx n_ctx (ℤ.negsuc i) s = panic

-- a slice of `try_from(len).expect(…)` elements
unfoldable pub sized : {S E F : Type 0} → Option (List F) → ℤ → Method S E (List F)
sized values (ℤ.pos len) s = from_raw_parts values len s
sized values (ℤ.negsuc n) s = panic

module _ {F : Type 0} (readout : Readout F) where
  unfoldable pub get_logits : {E : Type 0} → Method (LlamaContext F) E (List F)
  get_logits c = elim readout.logits [ none ↦ panic | some xs ↦ sized (some xs) readout.n_vocab c ]

  unfoldable pub get_logits_ith : {E : Type 0} → ℤ → Method (LlamaContext F) E (List F)
  get_logits_ith i c =
      if is_initialized i c.initialized_logits
      then (below_n_ctx c.n_ctx i >>= λ below. sized (readout.logits_ith i) readout.n_vocab) c
      else panic

  unfoldable pub embeddings_out_len : ℤ
  embeddings_out_len = if readout.is_rank then ℤ.pos readout.n_cls_out else readout.n_embd_out

  -- the `Ok` and the `Err` of a pointer to embeddings
  unfoldable pub embeddings_of :
      EmbeddingsError → Option (List F) → Method (LlamaContext F) EmbeddingsError (List F)
  embeddings_of e none c = err e c
  embeddings_of e (some xs) c = sized (some xs) embeddings_out_len c

  unfoldable pub embeddings_seq_ith : ℤ → Method (LlamaContext F) EmbeddingsError (List F)
  embeddings_seq_ith i c =
      if c.embeddings_enabled
      then embeddings_of none_pool_type (readout.embeddings_seq i) c
      else err embeddings_not_enabled c

  unfoldable pub embeddings_ith : ℤ → Method (LlamaContext F) EmbeddingsError (List F)
  embeddings_ith i c =
      if c.embeddings_enabled
      then embeddings_of logits_not_enabled (readout.embeddings_ith i) c
      else err embeddings_not_enabled c

-- `(0_i32..).zip(logits).map(…)`, from `k` on; a vocabulary holds fewer than 2 ^ 31 - 1 tokens
unfoldable pub candidates_from : {F : Type 0} → F → ℕ → List F → List (LlamaTokenData F)
candidates_from zero_p k [] = []
candidates_from zero_p k (x ∷ xs) =
    record { id = ℤ.pos k; logit = x; p = zero_p } ∷ candidates_from zero_p (suc k) xs

-- `LlamaTokenDataArray::from_iter` with its `new`
unfoldable pub from_iter : {F : Type 0} → List (LlamaTokenData F) → Bool → LlamaTokenDataArray F
from_iter tokens sorted = record { data_of = tokens; selected = none; sorted = sorted }

-- `zero_p` is the `0_f32`.
module _ {F : Type 0} (readout : Readout F) (zero_p : F) where
  unfoldable pub candidates : {E : Type 0} → Method (LlamaContext F) E (List (LlamaTokenData F))
  candidates = get_logits readout >>= λ xs c. ok (candidates_from zero_p 0 xs) c

  unfoldable pub candidates_ith :
      {E : Type 0} → ℤ → Method (LlamaContext F) E (List (LlamaTokenData F))
  candidates_ith i = get_logits_ith readout i >>= λ xs c. ok (candidates_from zero_p 0 xs) c

  unfoldable pub token_data_array : {E : Type 0} → Method (LlamaContext F) E (LlamaTokenDataArray F)
  token_data_array = candidates >>= λ tokens c. ok (from_iter tokens false) c

  unfoldable pub token_data_array_ith :
      {E : Type 0} → ℤ → Method (LlamaContext F) E (LlamaTokenDataArray F)
  token_data_array_ith i = candidates_ith i >>= λ tokens c. ok (from_iter tokens false) c

-- the backend's token for a row, where -1 stands for none
unfoldable pub sampled_token_ith : (ℤ → ℤ) → ℤ → Option ℤ
sampled_token_ith get_sampled_token i =
    let token = get_sampled_token i in if int_eqb token (ℤ.negsuc 0) then none else some token
