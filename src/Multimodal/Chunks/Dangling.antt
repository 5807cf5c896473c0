-- ===== src/Multimodal/Chunks/Dangling.antt =====
-- mtmd.rs: chunks that outlive their collection.
use llama_cpp_rs.Prelude.{
  ℕ, suc, ◌≡◌, ◌≢◌, ◌<◌, refl, ap, ◌∙◌, true, false, List, [], ◌∷◌, Option, none, some, ==_iff,
  arith, ℤ,
}
use llama_cpp_rs.Prelude.Run.{
  ok, fault, Method, ◌>>=◌, ◌>>◌, >>=-eq_of_ok, >>=-eq_of_fault, or_panic,
}
use llama_cpp_rs.Multimodal.{text, chunk_type_from}
use llama_cpp_rs.Multimodal.Chunks.{
  Heap, ChunkPtr, inside, copied, allocation, MtmdInputChunk, MtmdInputChunkError, ChunkApi,
  is_live, released, used, allocated, freed, drop_chunks, len, get, chunk_type, nonempty, text_of,
  text_tokens, copy,
}

is_live-released : (a : ℕ) (l : List ℕ) → is_live a (released a l) ≡ false
unfolding is_live released
is_live-released a [] = refl
is_live-released a (b ∷ l) = ground (arith, is_live-released a l)

module _ {E : Type 0} where
  used_live :
      {A : Type 0} (a : ℕ) (x : A) (h : Heap)
      → is_live a h.live ≡ true
      → used {E = E} a x h ≡ ok x h
  unfolding used
  used_live a x h e = ground (arith, e)

  used_dead :
      {A : Type 0} (a : ℕ) (x : A) (h : Heap)
      → is_live a h.live ≡ false
      → used {E = E} a x h ≡ fault
  unfolding used
  used_dead a x h e = ground (arith, e)

  drop_chunks_live :
      (a : ℕ) (h : Heap)
      → is_live a h.live ≡ true
      → drop_chunks {E = E} a h ≡ ok tt record h { live = released a h.live }
  unfolding drop_chunks freed
  drop_chunks_live a h e = ground (arith, e)

  get_live :
      (api : ChunkApi) (chunks index : ℕ) (h : Heap)
      → is_live chunks h.live ≡ true
      → index < api.size chunks
      → get api {E = E} chunks index h
        ≡ ok (some record { chunk = inside chunks index; owned = false }) h
  unfolding get len
  get_live api chunks index h e few =
      >>=-eq_of_ok (used chunks (api.size chunks)) _ (used_live chunks (api.size chunks) h e)
      ∙ used_live chunks _ h e
      ∙ ap (λ o. ok o h) (ground (arith, few))

  text_tokens_dead :
      (api : ChunkApi) (c : MtmdInputChunk) (h : Heap)
      → is_live (allocation c.chunk) h.live ≡ false
      → text_tokens api {E = E} c h ≡ fault
  unfolding text_tokens chunk_type
  text_tokens_dead api c h e =
      >>=-eq_of_fault (chunk_type api c) (text_of api c)
        (>>=-eq_of_fault (used (allocation c.chunk) (api.chunk_type c.chunk)) _ (used_dead _ _ h e))

  text_tokens_live :
      (api : ChunkApi) (c : MtmdInputChunk) (h : Heap)
      → is_live (allocation c.chunk) h.live ≡ true
      → chunk_type_from api.types (api.chunk_type c.chunk) ≡ some text
      → text_tokens api {E = E} c h ≡ ok (nonempty (api.tokens_text c.chunk)) h
  unfolding text_tokens chunk_type text_of
  text_tokens_live api c h e is =
      >>=-eq_of_ok (chunk_type api c) (text_of api c) (
        >>=-eq_of_ok (used (allocation c.chunk) (api.chunk_type c.chunk)) _ (used_live _ _ h e)
        ∙ ap (λ o. or_panic o h) is)
      ∙ used_live _ _ h e

copy_live :
    (api : ChunkApi) (c : MtmdInputChunk) (h : Heap)
    → is_live (allocation c.chunk) h.live ≡ true
    → api.copies c.chunk ≡ true
    → copy api c h
      ≡ ok
          record { chunk = copied h.next c.chunk; owned = true }
          record { live = h.next ∷ h.live; next = suc h.next }
unfolding copy allocated
copy_live api c h e may =
    >>=-eq_of_ok (used (allocation c.chunk) (api.copies c.chunk)) _ (used_live _ _ h e)
    ∙ rw may refl

-- The collection is alive, and the next address is none of those in use.
abbrev pub IsHeap : ℕ → Heap → Type 0
IsHeap chunks h = (is_live chunks h.live ≡ true) × (chunks ≢ h.next)

module _ (api : ChunkApi) (chunks index : ℕ) where
  abbrev pub chunk_of : MtmdInputChunk
  chunk_of = record { chunk = inside chunks index; owned = false }

  -- `get`, then the drop of the collection, then `text_tokens` of the chunk
  unfoldable pub get_drop_read : Method Heap MtmdInputChunkError (Option (List ℤ))
  get_drop_read = get api chunks index >>= λ o.
      drop_chunks chunks >> (elim o [ none ↦ λ h. ok none h | some c ↦ text_tokens api c ])

  -- the same with a copy of the chunk
  unfoldable pub get_copy_drop_read : Method Heap MtmdInputChunkError (Option (List ℤ))
  get_copy_drop_read = get api chunks index >>= λ o. elim o [
    | none ↦ λ h. ok none h
    | some c ↦ copy api c >>= λ d. drop_chunks chunks >> text_tokens api d
  ]

-- A copy has the type and the tokens of its source.
pub record AreCopies (api : ChunkApi) : Type 0 where
  pub same_type : (a : ℕ) (p : ChunkPtr) → api.chunk_type (copied a p) ≡ api.chunk_type p
  pub same_tokens : (a : ℕ) (p : ChunkPtr) → api.tokens_text (copied a p) ≡ api.tokens_text p

module _ (api : ChunkApi) (law : AreCopies api) where
  -- A chunk that `get` gives does not keep its collection alive: when the collection is dropped first,
  -- as safe code may do, reading the chunk is undefined. A copy of a text chunk, where llama.cpp makes
  -- one, is read as the chunk itself.
  pub get-dangling :
      (chunks index : ℕ) (h : Heap)
      → IsHeap chunks h
      → index < api.size chunks
      → api.copies (inside chunks index) ≡ true
      → chunk_type_from api.types (api.chunk_type (inside chunks index)) ≡ some text
      → (get_drop_read api chunks index h ≡ fault)
        × ((h' : Heap) × (get_copy_drop_read api chunks index h
              ≡ ok (nonempty (api.tokens_text (inside chunks index))) h'))
  unfolding get_drop_read get_copy_drop_read is_live released allocation
  get-dangling chunks index h (alive, apart) few copies is =
      let c = chunk_of api chunks index in
      let copied_c : MtmdInputChunk = record { chunk = copied h.next c.chunk; owned = true } in
      let more : Heap = record { live = h.next ∷ h.live; next = suc h.next } in
      let still : is_live chunks more.live ≡ true = ground (arith, alive) in
      let rest : is_live h.next (released chunks more.live) ≡ true =
        ground (arith, apart, ==_iff chunks h.next) in
      let got = get_live {E = MtmdInputChunkError} api chunks index h alive few in
      (
        >>=-eq_of_ok (get api chunks index) _ got
            ∙ (>>=-eq_of_ok (drop_chunks chunks) _ (drop_chunks_live chunks h alive)
                ∙ text_tokens_dead api c _ (is_live-released chunks h.live)),
        (
          record { live = released chunks more.live; next = suc h.next },
          >>=-eq_of_ok (get api chunks index) _ got
              ∙ (>>=-eq_of_ok (copy api c) _ (copy_live api c h alive copies)
                  ∙ (>>=-eq_of_ok (drop_chunks chunks) _ (drop_chunks_live chunks more still)
                      ∙ (text_tokens_live api copied_c _ rest
                            (ap (chunk_type_from api.types) (law.same_type h.next c.chunk) ∙ is)
                          ∙ ap
                              (λ t.
                                ok (nonempty t)
                                  record { live = released chunks more.live; next = suc h.next })
                              (law.same_tokens h.next c.chunk)))),
        ),
      )
