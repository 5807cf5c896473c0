-- ===== src/Params/Overrides.antt =====
-- llama-cpp-2/src/model/params.rs and params/kv_overrides.rs: the overrides of metadata and of buffer
-- types. A panic is none where nothing else can go wrong. A float is a type parameter.
pub mod Once
use llama_cpp_rs.Prelude.{
  ℕ, zero, suc, ◌+◌, Bool, true, false, not, ◌||◌, List, [], ◌∷◌, ◌++◌, Option, none, some, length,
  drop, replicate, ltb, leb, ◌==◌, if◌then◌else◌, ℤ,
}
use llama_cpp_rs.Prelude.Run.{Run, ok, err, panic, fault}
use llama_cpp_rs.Prelude.Text.{Text, codes}

abbrev pub key_size : ℕ
key_size = 128

-- `ParamOverrideValue`, which is also what the union of `llama_model_kv_override` holds
pub data ParamOverrideValue (F : Type 0) : Type 0 where
  bool : Bool → ParamOverrideValue F
  float : F → ParamOverrideValue F
  int : ℤ → ParamOverrideValue F
  str : Text → ParamOverrideValue F

-- llama.cpp's tags
pub record Tags : Type 0 where
  pub tag_int : ℕ
  pub tag_float : ℕ
  pub tag_bool : ℕ
  pub tag_str : ℕ

unfoldable pub tag : {F : Type 0} → Tags → ParamOverrideValue F → ℕ
tag t (bool b) = t.tag_bool
tag t (float x) = t.tag_float
tag t (int n) = t.tag_int
tag t (str s) = t.tag_str

-- `llama_model_kv_override`
pub record KvOverride (F : Type 0) : Type 0 where
  pub key : Text
  pub tag : ℕ
  pub value : ParamOverrideValue F

-- The overrides, and whether their pointer is passed to llama.cpp.
pub record KvParams (F : Type 0) : Type 0 where
  pub kv_overrides : List (KvOverride F)
  pub passed : Bool

module _ {F : Type 0} where
  unfoldable pub empty_override : KvOverride F
  empty_override = record { key = replicate key_size 0; tag = 0; value = int (ℤ.pos 0) }

  unfoldable pub default_overrides : KvParams F
  default_overrides = record { kv_overrides = empty_override ∷ []; passed = false }

-- whether the first byte is null
unfoldable pub is_empty_key : Text → Bool
is_empty_key [] = true
is_empty_key (c ∷ key) = c == 0

-- whether each byte converts to a `c_char`, which is signed
unfoldable pub are_chars : Text → Bool
are_chars [] = true
are_chars (c ∷ t) = let rest = are_chars t in if ltb c 128 then rest else false

-- the loop over the bytes with the null byte; none where a byte does not convert or has no place
unfoldable pub write_key : Text → Text → Option Text
write_key key buffer =
    if not (are_chars key) || leb (length buffer) (length key)
    then none
    else some (key ++ (0 ∷ drop (length key + 1) buffer))

module _ {F : Type 0} (t : Tags) where
  -- the checks and writes on the first override
  unfoldable pub append_to : List (KvOverride F) → Text → ParamOverrideValue F → Option (KvParams F)
  append_to [] key value = none
  append_to (first ∷ rest) key value =
      if is_empty_key first.key
      then elim (write_key key first.key) [
        | none ↦ none
        | some key' ↦ some (record {
          kv_overrides =
              record { key = key'; tag = tag t value; value = value }
              ∷ (rest ++ (empty_override ∷ []));
          passed = true;
        })
      ]
      else none

  unfoldable pub append_kv_override : Text → ParamOverrideValue F → KvParams F → Option (KvParams F)
  append_kv_override key value p = append_to p.kv_overrides key value

  -- `ParamOverrideValue::from`: it reads the member of the union that the tag names, which is undefined
  -- where another was written
  unfoldable pub value_from :
      ℕ → ParamOverrideValue F → Run (Unit {0}) (Unit {0}) (ParamOverrideValue F)
  value_from k value =
      if (k == t.tag_int) || ((k == t.tag_float) || ((k == t.tag_bool) || (k == t.tag_str)))
      then (if k == tag t value then ok value tt else fault)
      else panic

-- `CStr::from_ptr` of an array, which is undefined where it has no null byte
unfoldable pub c_str_of : Text → Option Text
c_str_of [] = none
c_str_of (zero ∷ t) = some []
c_str_of (suc c ∷ t) = elim (c_str_of t) [ none ↦ none | some s ↦ some (suc c ∷ s) ]

module _ {F : Type 0} (t : Tags) where
  -- one item and those after it
  unfoldable pub item :
      Run (Unit {0}) (Unit {0}) (ParamOverrideValue F)
      → Option Text
      → Run (Unit {0}) (Unit {0}) (List (Text × ParamOverrideValue F))
      → Run (Unit {0}) (Unit {0}) (List (Text × ParamOverrideValue F))
  item (ok value u) (some key) (ok items v) = ok ((key, value) ∷ items) tt
  item (ok value u) (some key) panic = panic
  item (ok value u) (some key) rest = fault
  item (ok value u) none rest = fault
  item panic key rest = panic
  item (err e u) key rest = fault
  item fault key rest = fault

  -- all that the iterator gives; to read beyond the last override is undefined
  unfoldable pub items :
      List (KvOverride F) → Run (Unit {0}) (Unit {0}) (List (Text × ParamOverrideValue F))
  items [] = fault
  items (current ∷ rest) =
      let more = items rest in
      if is_empty_key current.key
      then ok [] tt
      else item (value_from t current.tag current.value) (c_str_of current.key) more

  unfoldable pub kv_overrides :
      KvParams F → Run (Unit {0}) (Unit {0}) (List (Text × ParamOverrideValue F))
  kv_overrides p = if p.passed then items p.kv_overrides else ok [] tt

-- `buft_overrides`, by their patterns, where a null pointer is none
abbrev pub BuftOverrides : Type 0
BuftOverrides = List (Option Text)

unfoldable pub default_buft : BuftOverrides
default_buft = none ∷ []

unfoldable pub add_cpu_buft_override : Text → BuftOverrides → Option BuftOverrides
add_cpu_buft_override key [] = none
add_cpu_buft_override key (some pattern ∷ rest) = none
add_cpu_buft_override key (none ∷ rest) =
    if are_chars key then some (some key ∷ (rest ++ (none ∷ []))) else none

unfoldable pub add_cpu_moe_override : BuftOverrides → Option BuftOverrides
add_cpu_moe_override = add_cpu_buft_override (codes "\\.ffn_(up|down|gate)_(ch|)exps")

unfoldable pub tensor_buft_override_patterns : BuftOverrides → List Text
tensor_buft_override_patterns [] = []
tensor_buft_override_patterns (none ∷ rest) = tensor_buft_override_patterns rest
tensor_buft_override_patterns (some pattern ∷ rest) = pattern ∷ tensor_buft_override_patterns rest
