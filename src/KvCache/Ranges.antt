-- ===== src/KvCache/Ranges.antt =====
-- The ranges of positions: what a range means for the cells of the cache, and the ranges that are refused
-- before llama.cpp is called.
use llama_cpp_rs.Prelude.{
  ℕ, ◌<◌, ◌≤◌, ◌≡◌, refl, ap, ◌∙◌, ◌⊎◌, inl, inr, Bool, true, false, ◌&&◌, ◌||◌, Option, none, some,
  List, [], ◌∷◌, ltb, leb, if◌then◌else◌, arith, ℤ, int_eqb, int_leb, i32_limit, Option-cases,
}
use llama_cpp_rs.Prelude.Run.{Run, ok, err}
use llama_cpp_rs.KvCache.{
  KvCacheConversionError, p0_too_large, p1_too_large, partial_sequence_removal_failed, MemoryApi,
  bound, modify, with_range, copy_kv_cache_seq, clear_kv_cache_seq, kv_cache_seq_cp,
  kv_cache_seq_add, removed, kv_cache_seq_rm, kv_cache_seq_div, answered,
}

-- A bound that is absent, or that an `i32` holds.
abbrev pub Fits : Option ℕ → Type 0
Fits none = Unit
Fits (some n) = n < i32_limit

-- A cell of the cache: a sequence and a position in it.
pub record Cell : Type 0 where
  pub seq : ℤ
  pub at : ℕ

-- The half-open range `[p0, p1)` as the methods document it.
abbrev pub in_range : Option ℕ → Option ℕ → ℕ → Bool
in_range none none x = true
in_range (some a) none x = leb a x
in_range none (some b) x = ltb x b
in_range (some a) (some b) x = leb a x && ltb x b

-- The same range as llama.h documents it: `p0 < 0` stands for 0 and `p1 < 0` for infinity.
abbrev pub in_raw_range : ℤ → ℤ → ℕ → Bool
in_raw_range (ℤ.pos a) (ℤ.pos b) x = leb a x && ltb x b
in_raw_range (ℤ.pos a) (ℤ.negsuc b) x = leb a x
in_raw_range (ℤ.negsuc a) (ℤ.pos b) x = ltb x b
in_raw_range (ℤ.negsuc a) (ℤ.negsuc b) x = true

abbrev pub without_cells : (Cell → Bool) → List Cell → List Cell
without_cells test [] = []
without_cells test (c ∷ cs) = let rest = without_cells test cs in if test c then rest else c ∷ rest

-- llama.h: a removal that succeeds takes away the cells of the sequence in the range, of every sequence
-- if the id is negative, and one that fails takes none away.
pub record Removes (memory : MemoryApi (List Cell)) : Type 0 where
  pub removes :
      (seq p0 p1 : ℤ) (cells cells' : List Cell)
      → memory.seq_rm seq p0 p1 cells ≡ (true, cells')
      → cells'
        ≡ without_cells
            (λ c. (int_leb seq (ℤ.negsuc 0) || int_eqb c.seq seq) && in_raw_range p0 p1 c.at)
            cells
  pub keeps :
      (seq p0 p1 : ℤ) (cells cells' : List Cell)
      → memory.seq_rm seq p0 p1 cells ≡ (false, cells')
      → cells' ≡ cells

-- the bound that llama.cpp gets
abbrev raw : Option ℕ → ℤ
raw none = ℤ.negsuc 0
raw (some n) = ℤ.pos n

bound-Fits : (p : Option ℕ) → Fits p → bound p ≡ some (raw p)
unfolding bound
bound-Fits none h = refl
bound-Fits (some n) h = ground arith

in_raw_range_lem : (p0 p1 : Option ℕ) (x : ℕ) → in_raw_range (raw p0) (raw p1) x ≡ in_range p0 p1 x
in_raw_range_lem none none x = refl
in_raw_range_lem none (some b) x = refl
in_raw_range_lem (some a) none x = refl
in_raw_range_lem (some a) (some b) x = refl

without_cells_ext :
    (f g : Cell → Bool)
    → ((c : Cell) → f c ≡ g c)
    → (cells : List Cell) → without_cells f cells ≡ without_cells g cells
without_cells_ext f g same [] = refl
without_cells_ext f g same (c ∷ cs) = ground (arith, same c, without_cells_ext f g same cs)

-- One of the bounds is a number that no `i32` holds.
abbrev pub Oversized : Option ℕ → Option ℕ → Type 0
Oversized p0 p1 = (n : ℕ) × (i32_limit ≤ n) × ((p0 ≡ some n) ⊎ (p1 ≡ some n))

-- The call is refused, and the state is the one before it.
abbrev pub Refused : {S A : Type 0} → S → Run S KvCacheConversionError A → Type 0
Refused s r = (e : KvCacheConversionError) × (r ≡ err e s)

module _ {S A : Type 0} (f : ℤ → ℤ → S → Run S KvCacheConversionError A) (s : S) where
  with_range-Fits :
      (p0 p1 : Option ℕ) → Fits p0 → Fits p1 → with_range p0 p1 f s ≡ f (raw p0) (raw p1) s
  unfolding with_range
  with_range-Fits p0 p1 h0 h1 = rw (bound-Fits p0 h0, bound-Fits p1 h1) refl

  with_range-Refused : (p0 p1 : Option ℕ) → Oversized p0 p1 → Refused s (with_range p0 p1 f s)
  unfolding with_range bound
  with_range-Refused p0 p1 (n, big, inl e) = (p0_too_large, ground (arith, e))
  with_range-Refused p0 p1 (n, big, inr e) = elim (Option-cases (bound p0)) [
    | inl none_fits ↦ (p0_too_large, ground (arith, none_fits))
    | inr (a, fits) ↦ (p1_too_large, ground (arith, e, fits))
  ]

-- Every operation on a range refuses a bound that no `i32` holds, before it calls llama.cpp.
Oversized-Refused :
    {S : Type 0} (memory : MemoryApi S) (seq dest delta : ℤ) (p0 p1 : Option ℕ) (d : ℕ) (s : S)
    → Oversized p0 p1
    → Refused s (copy_kv_cache_seq memory seq dest p0 p1 s)
      × Refused s (clear_kv_cache_seq memory none p0 p1 s)
      × Refused s (kv_cache_seq_cp memory seq dest p0 p1 s)
      × Refused s (kv_cache_seq_add memory seq p0 p1 delta s)
      × Refused s (kv_cache_seq_rm memory seq p0 p1 s)
      × Refused s (kv_cache_seq_div memory seq p0 p1 d s)
unfolding copy_kv_cache_seq clear_kv_cache_seq kv_cache_seq_cp kv_cache_seq_add kv_cache_seq_rm
    kv_cache_seq_div bound
Oversized-Refused memory seq dest delta p0 p1 d s big = (
  with_range-Refused (λ start end. modify (memory.seq_cp seq dest start end)) s p0 p1 big,
  with_range-Refused (λ start end s. answered memory (memory.seq_rm (ℤ.negsuc 0) start end s)) s p0
      p1 big,
  with_range-Refused (λ start end. modify (memory.seq_cp seq dest start end)) s p0 p1 big,
  with_range-Refused (λ start end. modify (memory.seq_add seq start end delta)) s p0 p1 big,
  with_range-Refused (λ start end s. removed memory start end (memory.seq_rm seq start end s)) s p0
      p1 big,
  with_range-Refused (λ start end. modify (memory.seq_div seq start end (ℤ.pos d))) s p0 p1 big,
)

-- What `kv_cache_seq_rm` and `clear_kv_cache_seq` leave: without the cells of the sequence `seq`, or of
-- every sequence for a negative id, in `[p0, p1)`.
abbrev pub kept : ℤ → Option ℕ → Option ℕ → List Cell → List Cell
kept seq p0 p1 =
    without_cells λ c. (int_leb seq (ℤ.negsuc 0) || int_eqb c.seq seq) && in_range p0 p1 c.at

module _ (memory : MemoryApi (List Cell)) (law : Removes memory) where
  kept_lem :
      (seq : ℤ) (p0 p1 : Option ℕ) (cells cells' : List Cell)
      → memory.seq_rm seq (raw p0) (raw p1) cells ≡ (true, cells')
      → cells' ≡ kept seq p0 p1 cells
  kept_lem seq p0 p1 cells cells' h =
      law.removes seq (raw p0) (raw p1) cells cells' h
      ∙ without_cells_ext _ _
          (λ c.
            ap (λ b. (int_leb seq (ℤ.negsuc 0) || int_eqb c.seq seq) && b)
              (in_raw_range_lem p0 p1 c.at))
          cells

  removed-cases :
      (seq : ℤ) (p0 p1 : Option ℕ) (cells : List Cell) (r : Bool × List Cell)
      → memory.seq_rm seq (raw p0) (raw p1) cells ≡ r
      → (removed memory (raw p0) (raw p1) r ≡ ok tt (kept seq p0 p1 cells))
        ⊎ Refused cells (removed memory (raw p0) (raw p1) r)
  unfolding removed
  removed-cases seq p0 p1 cells (true, cells') h =
      inl (ap (ok tt) (kept_lem seq p0 p1 cells cells' h))
  removed-cases seq p0 p1 cells (false, cells') h = inr (
    partial_sequence_removal_failed (raw p0) (raw p1),
    ap (err (partial_sequence_removal_failed (raw p0) (raw p1)))
        (law.keeps seq (raw p0) (raw p1) cells cells' h),
  )

  answered-cases :
      (p0 p1 : Option ℕ) (cells : List Cell) (r : Bool × List Cell)
      → memory.seq_rm (ℤ.negsuc 0) (raw p0) (raw p1) cells ≡ r
      → (answered memory r ≡ ok true (kept (ℤ.negsuc 0) p0 p1 cells))
        ⊎ (answered memory r ≡ ok false cells)
  unfolding answered
  answered-cases p0 p1 cells (true, cells') h =
      inl (ap (ok true) (kept_lem (ℤ.negsuc 0) p0 p1 cells cells' h))
  answered-cases p0 p1 cells (false, cells') h =
      inr (ap (ok false) (law.keeps (ℤ.negsuc 0) (raw p0) (raw p1) cells cells' h))

  -- Where llama.cpp removes cells as llama.h documents it, with bounds that fit, `kv_cache_seq_rm` either removes exactly the cells of the sequence in the
  -- documented range, or changes nothing and says so.
  pub kv_cache_seq_rm_exact :
      (seq : ℤ) (p0 p1 : Option ℕ) (cells : List Cell)
      → Fits p0
      → Fits p1
      → (kv_cache_seq_rm memory seq p0 p1 cells ≡ ok tt (kept seq p0 p1 cells))
        ⊎ Refused cells (kv_cache_seq_rm memory seq p0 p1 cells)
  unfolding kv_cache_seq_rm removed
  kv_cache_seq_rm_exact seq p0 p1 cells h0 h1 =
      let ran =
        with_range-Fits (λ start end s. removed memory start end (memory.seq_rm seq start end s))
          cells p0 p1 h0 h1 in
      elim (removed-cases seq p0 p1 cells (memory.seq_rm seq (raw p0) (raw p1) cells) refl) [
        | inl e ↦ inl (ran ∙ e)
        | inr (x, e) ↦ inr (x, ran ∙ e)
      ]

  -- Where llama.cpp removes cells as llama.h documents it, with bounds that fit, `clear_kv_cache_seq`
  -- for no sequence in particular returns true and leaves the cache without exactly the
  -- cells of every sequence in the documented range, or returns false and changes nothing.
  clear_kv_cache_seq_exact :
      (p0 p1 : Option ℕ) (cells : List Cell)
      → Fits p0
      → Fits p1
      → (clear_kv_cache_seq memory none p0 p1 cells ≡ ok true (kept (ℤ.negsuc 0) p0 p1 cells))
        ⊎ (clear_kv_cache_seq memory none p0 p1 cells ≡ ok false cells)
  unfolding clear_kv_cache_seq bound
  clear_kv_cache_seq_exact p0 p1 cells h0 h1 =
      let ran =
        with_range-Fits (λ start end s. answered memory (memory.seq_rm (ℤ.negsuc 0) start end s))
          cells p0 p1 h0 h1 in
      elim (answered-cases p0 p1 cells (memory.seq_rm (ℤ.negsuc 0) (raw p0) (raw p1) cells) refl) [
        | inl e ↦ inl (ran ∙ e)
        | inr e ↦ inr (ran ∙ e)
      ]
