-- ===== src/Params/Overrides/Once.antt =====
-- model/params.rs: the first override and the next one.
use llama_cpp_rs.Prelude.{
  ◌+◌, ◌≡◌, ◌≢◌, ◌<◌, refl, true, [], ◌∷◌, ◌++◌, none, some, length, drop, replicate, arith,
}
use llama_cpp_rs.Prelude.Text.{Text, Free}
use llama_cpp_rs.Params.Overrides.{
  key_size, ParamOverrideValue, Tags, tag, KvParams, empty_override, are_chars, kv_overrides,
  BuftOverrides, default_buft, add_cpu_buft_override, tensor_buft_override_patterns,
}

-- A key of an override: ASCII, not empty, and with room for its null byte.
abbrev pub IsKey : Text → Type 0
IsKey key = (key ≢ []) × Free 0 key × (are_chars key ≡ true) × (length key < key_size)

module _ {F : Type 0} (t : Tags) where
  -- The parameters with the one override.
  one : Text → ParamOverrideValue F → KvParams F
  one key value = record {
    kv_overrides =
        record {
          key = key ++ (0 ∷ drop (length key + 1) (replicate key_size 0));
          tag = tag t value;
          value = value;
        }
        ∷ empty_override
        ∷ [];
    passed = true;
  }

-- On the default overrides of buffer types the first pattern is added and read back; after it
-- `add_cpu_buft_override` panics whatever it is given.
add_cpu_buft_override-once :
    (key : Text)
    → are_chars key ≡ true
    → (o : BuftOverrides) × (add_cpu_buft_override key default_buft ≡ some o)
      × (tensor_buft_override_patterns o ≡ key ∷ [])
      × ((key' : Text) → add_cpu_buft_override key' o ≡ none)
unfolding add_cpu_buft_override default_buft tensor_buft_override_patterns
add_cpu_buft_override-once key chars =
    (some key ∷ none ∷ [], ground (arith, chars), refl, λ key'. refl)
