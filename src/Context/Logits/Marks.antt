-- ===== src/Context/Logits/Marks.antt =====
-- The readouts of a decoded batch: which rows of logits can be read, and what stands in them.
use mathlib.Core.Path.{subst}
use llama_cpp_rs.Prelude.{
  ℕ, zero, suc, ◌+◌, ◌<◌, ◌≡◌, refl, sym, ap, ◌∙◌, inl, inr, true, false, Option, none, some, List,
  [], ◌∷◌, length, get_elem?, arith, ℤ, int_eqb_iff, Bool-cases, lt→ltb, take-length,
}
use llama_cpp_rs.Prelude.Run.{>>=-eq_of_ok, ok, panic}
use llama_cpp_rs.Batch.{LlamaBatch}
use llama_cpp_rs.Batch.View.{Entry, outputs, Shows}
use llama_cpp_rs.HiddenStates.Machine.{Native}
use llama_cpp_rs.Context.{LlamaContext, DecodeError, Evaluation, decode}
use llama_cpp_rs.Context.Decoding.{Decoded, decode-Decoded}
use llama_cpp_rs.Context.Logits.{
  Readout, from_raw_parts, is_initialized, below_n_ctx, sized, get_logits_ith, candidates_from,
  from_iter, token_data_array_ith, candidates_ith, LlamaTokenDataArray,
}

-- The batch of the entries `es` asks for the logits of the row `i`.
abbrev pub Asks : List Entry → ℤ → Type 0
Asks es i = (k : ℕ) × (e : Entry) × (i ≡ ℤ.pos k) × (get_elem? es k ≡ some e) × (e.logits ≡ true)

abbrev AsksFrom : ℕ → List Entry → ℤ → Type 0
AsksFrom n es i =
    (k : ℕ) × (e : Entry) × (i ≡ ℤ.pos (n + k)) × (get_elem? es k ≡ some e) × (e.logits ≡ true)

zero_add : (n : ℕ) → 0 + n ≡ n
zero_add n = omega arith

marked_of_asks :
    (n : ℕ) (es : List Entry) (k : ℕ) (e : Entry)
    → get_elem? es k ≡ some e
    → e.logits ≡ true
    → is_initialized (ℤ.pos (n + k)) (outputs n es) ≡ true
unfolding is_initialized
marked_of_asks n [] k e h on = ground arith
marked_of_asks n (d ∷ es) zero e h on = ground (arith, int_eqb_iff (ℤ.pos n) (ℤ.pos n))
marked_of_asks n (d ∷ es) (suc k) e h on = ground (arith, marked_of_asks (suc n) es k e h on)

asks_of_marked :
    (n : ℕ) (es : List Entry) (i : ℤ) → is_initialized i (outputs n es) ≡ true → AsksFrom n es i
unfolding is_initialized
asks_of_marked n [] i h = ground arith
asks_of_marked n (d ∷ es) i h = elim (Bool-cases (is_initialized i (outputs (suc n) es))) [
  | inl e ↦
      let (k, x, at_k, get, on) = asks_of_marked (suc n) es i e in (suc k, x, ground arith, get, on)
  | inr e ↦ (0, d, ground (arith, e, int_eqb_iff (ℤ.pos n) i), refl, ground (arith, e))
]

below_ok :
    {F : Type 0} (c : LlamaContext F) (k : ℕ)
    → k < c.n_ctx
    → below_n_ctx {E = DecodeError} c.n_ctx (ℤ.pos k) c ≡ ok tt c
unfolding below_n_ctx
below_ok c k h = ground (arith, lt→ltb k c.n_ctx h)

sized_all :
    {F : Type 0} (c : LlamaContext F) (row : List F) (v : Option (List F)) (n : ℤ)
    → v ≡ some row
    → n ≡ ℤ.pos (length row)
    → sized {E = DecodeError} v n c ≡ ok row c
unfolding sized from_raw_parts
sized_all c row v n keeps size = ground (arith, keeps, size, take-length row)

module _ {F : Type 0} (native : Native F) (e : Evaluation) (readout : Readout F) where
  adopted :
      (c c' : LlamaContext F) {cap width : ℕ} (batch : LlamaBatch) (es : List Entry)
      → Shows cap width batch es
      → decode native e batch c ≡ ok tt c'
      → c'.initialized_logits ≡ batch.initialized_logits
  adopted c c' batch es shows ran =
      (subst (Decoded e.code batch c) ran (decode-Decoded native e batch es c shows)).1

  module _ (c c' : LlamaContext F) {cap width : ℕ} (batch : LlamaBatch) (es : List Entry) where
    -- After a batch of the entries `es` was decoded without an error, the readout of a row that was asked
    -- for and is below `n_ctx` is what llama.cpp keeps for it, when that is a number for each token of
    -- the vocabulary.
    pub get_logits_ith_asked :
        Shows cap width batch es
        → decode native e batch c ≡ ok tt c'
        → (k : ℕ) (x : Entry) (row : List F) → get_elem? es k ≡ some x
        → x.logits ≡ true
        → k < c'.n_ctx
        → readout.logits_ith (ℤ.pos k) ≡ some row
        → readout.n_vocab ≡ ℤ.pos (length row)
        → get_logits_ith readout {E = DecodeError} (ℤ.pos k) c' ≡ ok row c'
    unfolding get_logits_ith
    get_logits_ith_asked shows ran k x row get on below keeps size =
        let marks = adopted c c' batch es shows ran ∙ shows.marked in
        let marked =
          ap (is_initialized (ℤ.pos k)) marks
          ∙ subst (λ n. is_initialized (ℤ.pos n) (outputs 0 es) ≡ true) (zero_add k)
              (marked_of_asks 0 es k x get on) in
        rw marked (
          >>=-eq_of_ok (below_n_ctx c'.n_ctx (ℤ.pos k))
            (λ _. sized (readout.logits_ith (ℤ.pos k)) readout.n_vocab) (below_ok c' k below)
          ∙ sized_all c' row (readout.logits_ith (ℤ.pos k)) readout.n_vocab keeps size)

    -- After a batch of the entries `es` was decoded without an error, the readout of a row that was not
    -- asked for panics.
    pub get_logits_ith_unasked :
        Shows cap width batch es
        → decode native e batch c ≡ ok tt c'
        → (i : ℤ) → ¬ Asks es i
        → get_logits_ith readout {E = DecodeError} i c' ≡ panic
    unfolding get_logits_ith
    get_logits_ith_unasked shows ran i unasked =
        let marks = adopted c c' batch es shows ran ∙ shows.marked in
        elim (Bool-cases (is_initialized i c'.initialized_logits)) [
          | inl m ↦
              let (k, x, at_k, get, on) =
                asks_of_marked 0 es i (sym (ap (is_initialized i) marks) ∙ m) in
              elim (unasked (k, x, at_k ∙ ap ℤ.pos (zero_add k), get, on)) [ ]
          | inr m ↦ ground (arith, m)
        ]

get_elem?-candidates_from :
    {F : Type 0} (zero_p : F) (n : ℕ) (xs : List F) (k : ℕ) (x : F)
    → get_elem? xs k ≡ some x
    → get_elem? (candidates_from zero_p n xs) k
      ≡ some (record { id = ℤ.pos (n + k); logit = x; p = zero_p })
unfolding candidates_from
get_elem?-candidates_from zero_p n [] k x h = ground arith
get_elem?-candidates_from zero_p n (y ∷ xs) zero x h = ground arith
get_elem?-candidates_from zero_p n (y ∷ xs) (suc k) x h =
    ground (arith, get_elem?-candidates_from zero_p (suc n) xs k x)

length-candidates_from :
    {F : Type 0} (zero_p : F) (n : ℕ) (xs : List F)
    → length (candidates_from zero_p n xs) ≡ length xs
unfolding candidates_from
length-candidates_from zero_p n [] = refl
length-candidates_from zero_p n (x ∷ xs) = ap suc (length-candidates_from zero_p (suc n) xs)

-- When the readout of a row returns numbers, the array of candidates has as many elements, of which the
-- k-th has the token id k and the k-th number, and nothing is selected or said to be sorted.
token_data_array_ith_lem :
    {F : Type 0} (readout : Readout F) (zero_p : F) (c c' : LlamaContext F) (i : ℤ) (row : List F)
    (k : ℕ) (x : F)
    → get_logits_ith readout {E = DecodeError} i c ≡ ok row c'
    → get_elem? row k ≡ some x
    → (array : LlamaTokenDataArray F) × (token_data_array_ith readout zero_p {E = DecodeError} i c
        ≡ ok array c')
      × (array.selected ≡ none)
      × (array.sorted ≡ false)
      × (length array.data_of ≡ length row)
      × (get_elem? array.data_of k ≡ some (record { id = ℤ.pos k; logit = x; p = zero_p }))
unfolding token_data_array_ith candidates_ith from_iter
token_data_array_ith_lem readout zero_p c c' i row k x h get = (
  from_iter (candidates_from zero_p 0 row) false,
  ground (arith, h),
  refl,
  refl,
  length-candidates_from zero_p 0 row,
  subst
      (λ n.
        get_elem? (candidates_from zero_p 0 row) k
        ≡ some (record { id = ℤ.pos n; logit = x; p = zero_p }))
      (zero_add k) (get_elem?-candidates_from zero_p 0 row k x get),
)
