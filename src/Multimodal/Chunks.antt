-- ===== src/Multimodal/Chunks.antt =====
-- llama-cpp-2/src/mtmd.rs: collections of chunks and their chunks. llama.cpp's objects are addresses; the
-- state says which of them are alive, and a use of any other is undefined.
pub mod Dangling
use llama_cpp_rs.Prelude.{
  ℕ, zero, suc, ◌+◌, Bool, true, false, not, ◌||◌, List, [], ◌∷◌, Option, none, some, length, ltb,
  leb, ◌==◌, if◌then◌else◌, ℤ,
}
use llama_cpp_rs.Prelude.Run.{Run, ok, err, panic, fault, Method, ◌>>=◌, ◌>>◌, or_panic}
use llama_cpp_rs.Prelude.Text.{Text}
use llama_cpp_rs.Prelude.Result
use llama_cpp_rs.Model.{c_string}
use llama_cpp_rs.Multimodal.{
  MtmdInputChunkType, text, image, audio, ChunkTypes, chunk_type_from, MtmdTokenizeError,
  bitmap_count_mismatch, image_preprocessing_error, unknown_error,
}

-- The addresses that are in use, and the next one that is free.
pub record Heap : Type 0 where
  pub live : List ℕ
  pub next : ℕ

-- A pointer to a chunk: one of a collection, or a copy with an address of its own.
pub data ChunkPtr : Type 0 where
  inside : ℕ → ℕ → ChunkPtr
  copied : ℕ → ChunkPtr → ChunkPtr

-- the allocation that the pointer leads into
unfoldable pub allocation : ChunkPtr → ℕ
allocation (inside chunks index) = chunks
allocation (copied address source) = address

pub record MtmdInputChunk : Type 0 where
  pub chunk : ChunkPtr
  pub owned : Bool

pub data MtmdInputChunkError : Type 0 where
  null_result : MtmdInputChunkError

pub data MtmdEvalError : Type 0 where
  eval_failure : ℤ → MtmdEvalError

-- What llama.cpp says of its objects, whether it makes a collection or a copy, and the code and position of an
-- evaluation.
pub record ChunkApi : Type 0 where
  pub types : ChunkTypes
  pub size : ℕ → ℕ
  pub chunk_type : ChunkPtr → ℕ
  pub tokens_text : ChunkPtr → List ℤ
  pub copies : ChunkPtr → Bool
  pub tokenize : ℕ → Text → List ℕ → ℤ
  pub eval_chunks : ℕ → ℤ → ℤ × ℤ
  pub inits : Bool

unfoldable pub is_live : ℕ → List ℕ → Bool
is_live a [] = false
is_live a (b ∷ bs) = (a == b) || is_live a bs

unfoldable pub released : ℕ → List ℕ → List ℕ
released a [] = []
released a (b ∷ bs) = let rest = released a bs in if a == b then rest else b ∷ rest

-- the tokens of a text, where a null pointer and no tokens are none
unfoldable pub nonempty : List ℤ → Option (List ℤ)
nonempty [] = none
nonempty (x ∷ xs) = some (x ∷ xs)

module _ {E : Type 0} where
  -- a use of the object at the address
  unfoldable pub used : {A : Type 0} → ℕ → A → Method Heap E A
  used a x h = if is_live a h.live then ok x h else fault

  unfoldable pub allocated : Method Heap E ℕ
  allocated h = ok h.next record { live = h.next ∷ h.live; next = suc h.next }

  unfoldable pub freed : ℕ → Method Heap E (Unit {0})
  freed a h = if is_live a h.live then ok tt record h { live = released a h.live } else fault

  -- `MtmdInputChunks::drop`
  unfoldable pub drop_chunks : ℕ → Method Heap E (Unit {0})
  drop_chunks chunks = freed chunks

  -- `MtmdInputChunk::drop`
  unfoldable pub drop_chunk : MtmdInputChunk → Method Heap E (Unit {0})
  drop_chunk c h = if c.owned then freed (allocation c.chunk) h else ok tt h

module _ (api : ChunkApi) where
  module _ {E : Type 0} where
    unfoldable pub len : ℕ → Method Heap E ℕ
    len chunks = used chunks (api.size chunks)

    -- `get`
    unfoldable pub get : ℕ → ℕ → Method Heap E (Option MtmdInputChunk)
    get chunks index = len chunks >>= λ n.
        used chunks (
          if leb n index
          then none
          else some (record { chunk = inside chunks index; owned = false }))

    unfoldable pub chunk_type : MtmdInputChunk → Method Heap E MtmdInputChunkType
    chunk_type c = used (allocation c.chunk) (api.chunk_type c.chunk) >>= λ n.
        or_panic (chunk_type_from api.types n)

    unfoldable pub text_of : MtmdInputChunk → MtmdInputChunkType → Method Heap E (Option (List ℤ))
    text_of c text h = used (allocation c.chunk) (nonempty (api.tokens_text c.chunk)) h
    text_of c image h = ok none h
    text_of c audio h = ok none h

    unfoldable pub text_tokens : MtmdInputChunk → Method Heap E (Option (List ℤ))
    text_tokens c = chunk_type c >>= text_of c

  unfoldable pub copy : MtmdInputChunk → Method Heap MtmdInputChunkError MtmdInputChunk
  copy c = used (allocation c.chunk) (api.copies c.chunk) >>= λ may.
      if may
      then (allocated >>= λ a h. ok (record { chunk = copied a c.chunk; owned = true }) h)
      else err null_result

  -- `MtmdInputChunks::new`
  unfoldable pub chunks_new : {E : Type 0} → Method Heap E ℕ
  chunks_new h = if api.inits then allocated h else panic

  -- the result of `tokenize`; the collection is dropped where it is an error
  unfoldable pub tokenized : ℕ → ℤ → Method Heap MtmdTokenizeError ℕ
  tokenized chunks (ℤ.negsuc n) h = (drop_chunks chunks >> err (unknown_error (ℤ.negsuc n))) h
  tokenized chunks (ℤ.pos n) h =
      if n == 0
      then ok chunks h
      else (drop_chunks chunks
            >> err (
                if n == 1
                then bitmap_count_mismatch
                else (if n == 2 then image_preprocessing_error else unknown_error (ℤ.pos n))))
          h

  -- `tokenize`; the collection is made first
  unfoldable pub tokenize : Text → List ℕ → Method Heap MtmdTokenizeError ℕ
  tokenize input bitmaps = chunks_new >>= λ chunks. elim (c_string input) [
    | Result.err i ↦ drop_chunks chunks >> err (MtmdTokenizeError.c_string_error i)
    | Result.ok bytes ↦ tokenized chunks (api.tokenize chunks bytes bitmaps)
  ]

  unfoldable pub eval_result : ℤ × ℤ → Method Heap MtmdEvalError ℤ
  eval_result (ℤ.pos zero, new_n_past) h = ok new_n_past h
  eval_result (ℤ.pos (suc n), new_n_past) h = err (eval_failure (ℤ.pos (suc n))) h
  eval_result (ℤ.negsuc n, new_n_past) h = err (eval_failure (ℤ.negsuc n)) h

  unfoldable pub eval_chunks : ℕ → ℤ → Method Heap MtmdEvalError ℤ
  eval_chunks chunks n_past = used chunks (api.eval_chunks chunks n_past) >>= eval_result
