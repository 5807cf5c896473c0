-- ===== src/Tokens.antt =====
-- llama-cpp-2/src/token/data_array.rs: the array of candidates, and its trip through llama.cpp. What
-- llama.cpp does to the array is a parameter.
pub mod Selection
use llama_cpp_rs.Prelude.{
  ℕ, Bool, true, false, Option, none, some, List, [], ◌∷◌, length, take, get_elem?, ltb, leb,
  if◌then◌else◌, ℤ,
}
use llama_cpp_rs.Prelude.Run.{Run, ok, err, panic, fault}
use llama_cpp_rs.Context.Logits.{LlamaTokenData, LlamaTokenDataArray}

-- `llama_token_data_array`: the data behind its pointer, which may be longer than `size`, and whether
-- the pointer is the one that was passed in.
pub record RawTokenDataArray (F : Type 0) : Type 0 where
  pub elements : List (LlamaTokenData F)
  pub in_place : Bool
  pub size : ℕ
  pub selected : ℤ
  pub sorted : Bool

-- `self.selected.and_then(|s| s.try_into().ok()).unwrap_or(-1)`, for an `i64`
unfoldable pub raw_selected : Option ℕ → ℤ
raw_selected none = ℤ.negsuc 0
raw_selected (some s) = if ltb s 9223372036854775808 then ℤ.pos s else ℤ.negsuc 0

-- `try_into().ok().filter(|&s| s < self.data.len())`
unfoldable pub selected_below : ℕ → ℤ → Option ℕ
selected_below len (ℤ.pos s) = if ltb s len then some s else none
selected_below len (ℤ.negsuc s) = none

module _ {F : Type 0} where
  unfoldable pub selected_token : LlamaTokenDataArray F → Option ℤ
  selected_token a = elim a.selected [
    | none ↦ none
    | some s ↦ elim (get_elem? a.data_of s) [ none ↦ none | some t ↦ some t.id ]
  ]

  -- what is passed to `modify`
  unfoldable pub as_raw : LlamaTokenDataArray F → RawTokenDataArray F
  as_raw a = record {
    elements = a.data_of;
    in_place = true;
    size = length a.data_of;
    selected = raw_selected a.selected;
    sorted = a.sorted;
  }

  -- what is made of the result, whose data are copied into the vector unless they are in place;
  -- `size` elements are read, which is undefined where there are fewer
  unfoldable pub rebuild :
      {E : Type 0} → ℕ → RawTokenDataArray F → Run (LlamaTokenDataArray F) E (Unit {0})
  rebuild capacity r =
      if leb r.size capacity
      then (if leb r.size (length r.elements)
          then ok tt (record {
            data_of = take r.size r.elements;
            selected = selected_below r.size r.selected;
            sorted = r.sorted;
          })
          else fault)
      else panic

  -- `capacity` is that of the vector.
  unfoldable pub modify_as_c_llama_token_data_array :
      {E : Type 0}
      → ℕ
      → (RawTokenDataArray F → RawTokenDataArray F)
      → LlamaTokenDataArray F
      → Run (LlamaTokenDataArray F) E (Unit {0})
  modify_as_c_llama_token_data_array capacity modify a = rebuild capacity (modify (as_raw a))

  -- `apply_sampler`, for a sampler that changes the array so
  unfoldable pub apply_sampler :
      {E : Type 0}
      → ℕ
      → (RawTokenDataArray F → RawTokenDataArray F)
      → LlamaTokenDataArray F
      → Run (LlamaTokenDataArray F) E (Unit {0})
  apply_sampler capacity sampler = modify_as_c_llama_token_data_array capacity sampler

  -- `sample_token` and `sample_token_greedy`: a sampler, and the token that it selected
  unfoldable pub sample_token :
      {E : Type 0}
      → ℕ
      → (RawTokenDataArray F → RawTokenDataArray F)
      → LlamaTokenDataArray F
      → Run (LlamaTokenDataArray F) E ℤ
  sample_token capacity sampler a = elim (apply_sampler capacity sampler a) [
    | ok _ a' ↦ elim (selected_token a') [ none ↦ panic | some t ↦ ok t a' ]
    | err e a' ↦ err e a'
    | panic ↦ panic
    | fault ↦ fault
  ]
