-- ===== src/HiddenStates/Name.antt =====
-- `layer_from_name` of llama-cpp-2/src/context/hidden_states.rs: a name is the array of `c_char`s of
-- a tensor, and `none` is Rust's `None`.
pub mod Exact
use mathlib.Core.Option
use llama_cpp_rs.Prelude.{
  ℕ, suc, ◌+◌, ◌-◌, ◌*◌, Bool, true, false, ◌&&◌, Option, none, some, List, [], ◌∷◌, ltb, leb,
  length, drop, if◌then◌else◌, ℤ, int_eqb, to_usize, u32_limit,
}
use llama_cpp_rs.Batch.{and_then}

-- `&name[..end]` for the first NUL, if there is one
unfoldable pub until_nul : List ℤ → Option (List ℤ)
until_nul [] = none
until_nul (c ∷ cs) =
    let rest = Option.map (◌∷◌ c) (until_nul cs) in if int_eqb c (ℤ.pos 0) then some [] else rest

-- `b"l_out-"`
abbrev pub prefix : List ℤ
prefix = ℤ.pos b'l' ∷ ℤ.pos b'_' ∷ ℤ.pos b'o' ∷ ℤ.pos b'u' ∷ ℤ.pos b't' ∷ ℤ.pos b'-' ∷ []

-- `name.iter().zip(prefix).all(|(a, b)| a == b)`
unfoldable pub zip_eqb : List ℤ → List ℤ → Bool
zip_eqb (a ∷ as') (b ∷ bs) = int_eqb a b && zip_eqb as' bs
zip_eqb _ _ = true

abbrev pub checked_u32 : ℕ → Option ℕ
checked_u32 n = if ltb n u32_limit then some n else none

-- `u32::try_from(*c).ok()?.checked_sub(b'0')?`, and the test that it is a digit
unfoldable pub digit_of : ℤ → Option ℕ
digit_of (ℤ.negsuc n) = none
digit_of (ℤ.pos n) =
    if ltb n b'0' then none else (if ltb 9 (n - b'0') then none else some (n - b'0'))

-- `value.checked_mul(10)?.checked_add(digit)`
unfoldable pub push_digit : ℕ → ℤ → Option ℕ
push_digit value c =
    and_then (digit_of c) λ digit. and_then (checked_u32 (value * 10)) λ v. checked_u32 (v + digit)

unfoldable pub fold_digits : ℕ → List ℤ → Option ℕ
fold_digits value [] = some value
fold_digits value (c ∷ cs) = and_then (push_digit value c) λ v. fold_digits v cs

-- `digits.len() > 1 && digits[0] == 48`
unfoldable pub padded : List ℤ → Bool
padded (c ∷ d ∷ ds) = int_eqb c (ℤ.pos 48)
padded _ = false

-- what follows the cut at the NUL
unfoldable pub layer_of : List ℤ → Option ℕ
layer_of name =
    if leb (length name) (length prefix)
    then none
    else (if zip_eqb name prefix
        then (let digits = drop (length prefix) name in
            if padded digits then none else fold_digits 0 digits)
        else none)

unfoldable pub layer_from_name : List ℤ → Option ℕ
layer_from_name array = and_then (until_nul array) layer_of
