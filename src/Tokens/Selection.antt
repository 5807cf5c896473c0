-- ===== src/Tokens/Selection.antt =====
-- The array after a sampler, and what is selected in it.
use llama_cpp_rs.Prelude.{
  ℕ, zero, suc, ◌<◌, ◌≤◌, ◌≡◌, refl, ap, ◌∙◌, Option, none, some, List, [], ◌∷◌, length, take,
  get_elem?, ltb, ℤ, arith, length-take, take-length, if_rule,
}
use llama_cpp_rs.Prelude.Run.{ok}
use llama_cpp_rs.Context.Logits.{LlamaTokenData, LlamaTokenDataArray}
use llama_cpp_rs.Tokens.{
  RawTokenDataArray, raw_selected, selected_below, selected_token, as_raw, rebuild,
  modify_as_c_llama_token_data_array, apply_sampler, sample_token,
}

-- An index below `len`, if there is one.
abbrev pub Below : ℕ → Option ℕ → Type 0
Below len none = Unit
Below len (some s) = s < len

-- What is selected, if anything, is the index of an element.
abbrev pub IsSelected : {F : Type 0} → LlamaTokenDataArray F → Type 0
IsSelected a = Below (length a.data_of) a.selected

-- llama.cpp's promise on a sampler: what it says the array holds fits in the buffer and is there.
abbrev pub Fits : {F : Type 0} → ℕ → RawTokenDataArray F → Type 0
Fits capacity r = (r.size ≤ capacity) × (r.size ≤ length r.elements)

selected_below-lt :
    (len : ℕ) (s : ℤ) (i : ℕ) → selected_below len s ≡ some i → (i < len) × (s ≡ ℤ.pos i)
unfolding selected_below
selected_below-lt len (ℤ.pos s) i h = ground arith
selected_below-lt len (ℤ.negsuc s) i h = ground arith

selected_below-raw_selected :
    (len : ℕ) (o : Option ℕ)
    → len ≤ 9223372036854775808
    → Below len o
    → selected_below len (raw_selected o) ≡ o
unfolding selected_below raw_selected
selected_below-raw_selected len none small h = refl
selected_below-raw_selected len (some s) small h = ground arith

selected_of : (n : ℕ) (z : ℤ) (s : ℕ) → z ≡ ℤ.pos s → s < n → selected_below n z ≡ some s
unfolding selected_below
selected_of n z s e h = ground (arith, e)

get_elem?-take :
    {A : Type 0} (n : ℕ) (xs : List A) (i : ℕ) → i < n → get_elem? (take n xs) i ≡ get_elem? xs i
get_elem?-take zero xs i h = elim h [ ]
get_elem?-take (suc n) [] i h = refl
get_elem?-take (suc n) (x ∷ xs) zero h = refl
get_elem?-take (suc n) (x ∷ xs) (suc i) h = get_elem?-take n xs i (omega arith)

abbrev rebuilt : {F : Type 0} → RawTokenDataArray F → LlamaTokenDataArray F
rebuilt r = record {
  data_of = take r.size r.elements;
  selected = selected_below r.size r.selected;
  sorted = r.sorted;
}

Below-selected : (n : ℕ) (s : ℤ) (len : ℕ) → n ≤ len → Below len (selected_below n s)
unfolding selected_below
Below-selected n (ℤ.pos s) len h = if_rule (Below len) (ltb s n) _ _ (λ e. ground arith) λ e. tt
Below-selected n (ℤ.negsuc s) len h = tt

module _ {F E : Type 0} (capacity : ℕ) where
  rebuild-Fits :
      (r : RawTokenDataArray F) → Fits capacity r → rebuild {E = E} capacity r ≡ ok tt (rebuilt r)
  unfolding rebuild
  rebuild-Fits r (h, k) = ground arith

  module _ (sampler : RawTokenDataArray F → RawTokenDataArray F) (a : LlamaTokenDataArray F) where
    -- A sampler that leaves what the buffer holds leaves an array of just these elements, and what is
    -- selected in it, if anything, is the index of one of them, whatever the sampler selected.
    pub apply_sampler-IsSelected :
        Fits capacity (sampler (as_raw a))
        → (a' : LlamaTokenDataArray F) × (apply_sampler {E = E} capacity sampler a ≡ ok tt a')
          × (a'.data_of ≡ take (sampler (as_raw a)).size (sampler (as_raw a)).elements)
          × IsSelected a'
    unfolding apply_sampler modify_as_c_llama_token_data_array
    apply_sampler-IsSelected fits =
        let r = sampler (as_raw a) in
        (
          rebuilt r,
          rebuild-Fits r fits,
          refl,
          Below-selected r.size r.selected (length (take r.size r.elements))
              (ground (arith, fits, length-take r.size r.elements)),
        )

    -- When a sampler that leaves what the buffer holds selects one of its elements, `sample_token`
    -- returns the token of this element.
    sample_token_lem :
        (s : ℕ) (t : LlamaTokenData F)
        → Fits capacity (sampler (as_raw a))
        → (sampler (as_raw a)).selected ≡ ℤ.pos s
        → s < (sampler (as_raw a)).size
        → get_elem? (sampler (as_raw a)).elements s ≡ some t
        → (a' : LlamaTokenDataArray F) × (sample_token {E = E} capacity sampler a ≡ ok t.id a')
          × (a'.selected ≡ some s)
    unfolding sample_token apply_sampler modify_as_c_llama_token_data_array selected_token
    sample_token_lem s t fits chosen below found =
        let r = sampler (as_raw a) in
        let picked = selected_of r.size r.selected s chosen below in
        let there = get_elem?-take r.size r.elements s below ∙ found in
        (rebuilt r, ground (arith, rebuild-Fits r fits, picked, there), picked)

  -- A trip through llama.cpp that changes nothing gives the array back, if its selection is the index of
  -- an element and its length is no more than the capacity and 2 ^ 63.
  modify_as_c_llama_token_data_array_identity :
      (a : LlamaTokenDataArray F)
      → IsSelected a
      → length a.data_of ≤ capacity
      → length a.data_of ≤ 9223372036854775808
      → modify_as_c_llama_token_data_array {E = E} capacity (λ r. r) a ≡ ok tt a
  unfolding modify_as_c_llama_token_data_array as_raw
  modify_as_c_llama_token_data_array_identity a below fits small =
      rebuild-Fits (as_raw a) (fits, omega arith)
      ∙ ap (ok tt) (
          same a (take-length a.data_of)
            (selected_below-raw_selected (length a.data_of) a.selected small below))
    where
      same :
          (a : LlamaTokenDataArray F)
          → take (length a.data_of) a.data_of ≡ a.data_of
          → selected_below (length a.data_of) (raw_selected a.selected) ≡ a.selected
          → rebuilt (as_raw a) ≡ a
      same a e f = λ i. record { data_of = e i; selected = f i; sorted = a.sorted }
