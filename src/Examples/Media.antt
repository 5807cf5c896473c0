-- ===== src/Examples/Media.antt =====
-- Runs of llama-cpp-2/src/mtmd.rs.
use llama_cpp_rs.Prelude.{
  ℕ, ◌*◌, ◌≡◌, ◌≤◌, ◌↔◌, refl, true, false, [], ◌∷◌, some, length, arith, ℤ, u32_limit,
}
use llama_cpp_rs.Prelude.Run.{ok, fault}
use llama_cpp_rs.Multimodal.{BitmapApi, from_image_data, chunk_type_from}
use llama_cpp_rs.Multimodal.Bitmaps.{wrapped, from_image_data-fault_iff}
use llama_cpp_rs.Multimodal.Chunks.{Heap, inside, ChunkApi, nonempty, is_live}
use llama_cpp_rs.Multimodal.Chunks.Dangling.{
  IsHeap, get_drop_read, get_copy_drop_read, get-dangling,
}

-- Bitmaps that are always made, at the address that the world names.
abbrev bitmaps : BitmapApi ℕ
bitmaps = record {
  init = λ nx ny bytes s. (some s, s);
  init_reads = λ nx ny. nx * ny * 3;
  from_file = λ path placeholder s. (some s, s);
  from_buf = λ bytes placeholder s. (some s, s);
}

from_image_data-fault_iff_example :
    (from_image_data bitmaps false 65536 65536 [] 0 ≡ fault)
    ↔ (u32_limit ≤ 65536 * 65536 * 3) × (length {A = ℕ} [] ≡ wrapped 65536 65536)
from_image_data-fault_iff_example =
    from_image_data-fault_iff bitmaps (λ nx ny. refl) 65536 65536 [] 0

-- One collection of one chunk, a text of one token.
abbrev chunks : ChunkApi
chunks = record {
  types = record { type_text = 0; type_image = 1; type_audio = 2 };
  size = λ a. 1;
  chunk_type = λ p. 0;
  tokens_text = λ p. ℤ.pos 7 ∷ [];
  copies = λ p. true;
  tokenize = λ a input bitmaps. ℤ.pos 0;
  eval_chunks = λ a n_past. (ℤ.pos 0, n_past);
  inits = true;
}

abbrev heap : Heap
heap = record { live = 4 ∷ []; next = 5 }

heap-IsHeap : IsHeap 4 heap
unfolding is_live
heap-IsHeap = (refl, λ e. ground (arith, e))

get-dangling_example :
    (get_drop_read chunks 4 0 heap ≡ fault)
    × ((h' : Heap) × (get_copy_drop_read chunks 4 0 heap
          ≡ ok (nonempty (chunks.tokens_text (inside 4 0))) h'))
get-dangling_example =
    get-dangling chunks (record { same_type = λ a p. refl; same_tokens = λ a p. refl }) 4 0 heap
      heap-IsHeap (ground arith) refl (unfold chunk_type_from in refl)
