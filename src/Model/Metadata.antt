-- ===== src/Model/Metadata.antt =====
-- llama-cpp-2/src/model.rs: `extract_meta_string` and the metadata that it reads. The function of
-- llama.cpp is a parameter: what it returns and the bytes that it writes, for the length of the buffer.
pub mod Ends
use llama_cpp_rs.Prelude.{
  ℕ, zero, suc, ◌+◌, Bool, true, false, List, [], ◌∷◌, ◌++◌, Option, none, some, length, take, drop,
  replicate, get_elem?, leb, ltb, ◌==◌, if◌then◌else◌, ℤ,
}
use llama_cpp_rs.Prelude.Run.{Run, ok, err, panic, fault, Method}
use llama_cpp_rs.Prelude.Text.{Text}
use llama_cpp_rs.Prelude.Result
use llama_cpp_rs.Model.{c_string}

-- `MetaValError`. `unfinished` is no error of the code: it says that the fuel ran out.
pub data MetaValError : Type 0 where
  null_error : ℕ → MetaValError
  from_utf8_error unfinished : MetaValError
  negative_return : ℤ → MetaValError

abbrev pub MetaFunction : Type 0
MetaFunction = ℕ → ℤ × Text

-- whether the byte at the index is null, as the assertion of a debug build demands
unfoldable pub is_null_at : Text → ℕ → Bool
is_null_at buffer i = elim (get_elem? buffer i) [ none ↦ false | some b ↦ b == 0 ]

unfoldable pub meta_utf8 : {S : Type 0} → (Text → Bool) → Text → Method S MetaValError Text
meta_utf8 is_utf8 bytes s = if is_utf8 bytes then ok bytes s else err from_utf8_error s

-- the buffer, filled with null bytes, after the call
unfoldable pub meta_buffer : ℕ → Text → Text
meta_buffer capacity written = written ++ drop (length written) (replicate capacity 0)

-- the checks of a text that fits
unfoldable pub meta_fits : {S : Type 0} → (Text → Bool) → ℕ → Text → Method S MetaValError Text
meta_fits is_utf8 len buffer s =
    if is_null_at buffer len then meta_utf8 is_utf8 (take len buffer) s else panic

module _ {S : Type 0} (is_utf8 : Text → Bool) (c_function : MetaFunction) where
  -- What is made of a result; `again` is the call with a larger buffer.
  unfoldable pub meta_result :
      ℕ → (ℕ → Method S MetaValError Text) → ℤ × Text → Method S MetaValError Text
  meta_result capacity again (ℤ.negsuc n, written) s = err (negative_return (ℤ.negsuc n)) s
  meta_result capacity again (ℤ.pos returned_len, written) s =
      if ltb capacity (length written)
      then fault
      else (if leb capacity returned_len
          then again (returned_len + 1) s
          else meta_fits is_utf8 returned_len (meta_buffer capacity written) s)

  unfoldable pub extract_meta_string : ℕ → ℕ → Method S MetaValError Text
  extract_meta_string zero capacity s = err unfinished s
  extract_meta_string (suc fuel) capacity s =
      meta_result capacity (extract_meta_string fuel) (c_function capacity) s

  -- `meta_key_by_index` and `meta_val_str_by_index`, at an index
  unfoldable pub meta_by_index : ℕ → Method S MetaValError Text
  meta_by_index fuel = extract_meta_string fuel 256

-- `meta_val_str`, with what llama.cpp has for each key
unfoldable pub meta_val_str :
    {S : Type 0} → (Text → Bool) → (Text → MetaFunction) → ℕ → Text → Method S MetaValError Text
meta_val_str is_utf8 values fuel key s = elim (c_string key) [
  | Result.ok c_key ↦ extract_meta_string is_utf8 (values c_key) fuel 256 s
  | Result.err i ↦ err (null_error i) s
]
