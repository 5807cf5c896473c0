-- ===== src/Params/Splits.antt =====
-- llama-cpp-2/src/model/params.rs: `LlamaSplitMode` and its conversions. llama.cpp's numbers of the modes
-- are parameters.
use llama_cpp_rs.Prelude.{ℕ, ◌-◌, ◌≡◌, ◌≢◌, ◌<◌, ◌↔◌, ltb, ◌==◌, if◌then◌else◌, ℤ, i32_limit, arith}
use llama_cpp_rs.Prelude.Result.{Result, ok, err}
use llama_cpp_rs.Params.{LlamaModelParams, set_split_mode}

pub data LlamaSplitMode : Type 0 where
  none layer row tensor : LlamaSplitMode

-- `LlamaSplitModeParseError`
pub data LlamaSplitModeParseError : Type 0 where
  parse_error : ℤ → LlamaSplitModeParseError

pub record SplitModes : Type 0 where
  pub split_none : ℕ
  pub split_layer : ℕ
  pub split_row : ℕ
  pub split_tensor : ℕ

-- `LlamaSplitMode::default`
unfoldable pub default_split_mode : LlamaSplitMode
default_split_mode = layer

module _ (m : SplitModes) where
  -- the `match` on the number, with the error of the conversion
  unfoldable pub split_mode_of : ℤ → ℕ → Result LlamaSplitModeParseError LlamaSplitMode
  split_mode_of value n =
      if n == m.split_none
      then ok none
      else (if n == m.split_layer
          then ok layer
          else (if n == m.split_row
              then ok row
              else (if n == m.split_tensor then ok tensor else err (parse_error value))))

  -- `LlamaSplitMode::try_from` of an `i32`; an `i8` holds up to 127, and no mode is negative
  unfoldable pub split_mode_from_i32 : ℤ → Result LlamaSplitModeParseError LlamaSplitMode
  split_mode_from_i32 (ℤ.negsuc n) = err (parse_error (ℤ.negsuc n))
  split_mode_from_i32 (ℤ.pos n) =
      if ltb n 128 then split_mode_of (ℤ.pos n) n else err (parse_error (ℤ.pos n))

  -- the number in the error of a `u32`
  unfoldable pub reported : ℕ → ℤ
  reported n = if ltb n i32_limit then ℤ.pos n else ℤ.pos (i32_limit - 1)

  -- `LlamaSplitMode::try_from` of a `u32`
  unfoldable pub split_mode_from_u32 : ℕ → Result LlamaSplitModeParseError LlamaSplitMode
  split_mode_from_u32 n =
      if ltb n 128 then split_mode_of (reported n) n else err (parse_error (reported n))

  -- `From<LlamaSplitMode>`, for `i32` and `u32`
  unfoldable pub split_mode_number : LlamaSplitMode → ℕ
  split_mode_number none = m.split_none
  split_mode_number layer = m.split_layer
  split_mode_number row = m.split_row
  split_mode_number tensor = m.split_tensor

  unfoldable pub split_mode : LlamaModelParams → Result LlamaSplitModeParseError LlamaSplitMode
  split_mode p = split_mode_from_u32 p.split_mode

  unfoldable pub with_split_mode : LlamaSplitMode → LlamaModelParams → LlamaModelParams
  with_split_mode mode p = set_split_mode (split_mode_number mode) p

  -- The numbers differ, and an `i8` holds them.
  pub record AreSplitModes : Type 0 where
    pub none_layer : m.split_none ≢ m.split_layer
    pub none_row : m.split_none ≢ m.split_row
    pub none_tensor : m.split_none ≢ m.split_tensor
    pub layer_row : m.split_layer ≢ m.split_row
    pub layer_tensor : m.split_layer ≢ m.split_tensor
    pub row_tensor : m.split_row ≢ m.split_tensor
    pub small_none : m.split_none < 128
    pub small_layer : m.split_layer < 128
    pub small_row : m.split_row < 128
    pub small_tensor : m.split_tensor < 128

  number-small : AreSplitModes → (mode : LlamaSplitMode) → split_mode_number mode < 128
  unfolding split_mode_number
  number-small law none = law.small_none
  number-small law layer = law.small_layer
  number-small law row = law.small_row
  number-small law tensor = law.small_tensor

  split_mode_of-number :
      AreSplitModes
      → (value : ℤ) (mode : LlamaSplitMode) → split_mode_of value (split_mode_number mode) ≡ ok mode
  unfolding split_mode_of split_mode_number
  split_mode_of-number law value none = ground arith
  split_mode_of-number law value layer = ground (arith, law.none_layer)
  split_mode_of-number law value row = ground (arith, law.none_row, law.layer_row)
  split_mode_of-number law value tensor =
      ground (arith, law.none_tensor, law.layer_tensor, law.row_tensor)

  split_mode_of-ok :
      (value : ℤ) (n : ℕ) (mode : LlamaSplitMode)
      → split_mode_of value n ≡ ok mode
      → n ≡ split_mode_number mode
  unfolding split_mode_of split_mode_number
  split_mode_of-ok value n none h = ground arith
  split_mode_of-ok value n layer h = ground arith
  split_mode_of-ok value n row h = ground arith
  split_mode_of-ok value n tensor h = ground arith

  -- A split mode that is set is read back, and a number that is read is the number of the mode; the conversion from
  -- `i32` agrees with that from `u32` on every number that is not negative and that both hold.
  split_mode_iff :
      AreSplitModes
      → (mode : LlamaSplitMode) (p : LlamaModelParams)
      → (split_mode (with_split_mode mode p) ≡ ok mode)
        × ((n : ℕ) → (split_mode_from_u32 n ≡ ok mode) ↔ (n ≡ split_mode_number mode))
        × ((n : ℕ) → n < i32_limit → split_mode_from_i32 (ℤ.pos n) ≡ split_mode_from_u32 n)
  unfolding split_mode with_split_mode set_split_mode split_mode_from_u32 split_mode_from_i32
      reported
  split_mode_iff law mode p =
      let small = number-small law mode in
      let n = split_mode_number mode in
      let back = split_mode_of-number law (ℤ.pos n) mode in
      (
        ground (arith, small, back),
        λ k. (
          λ h. ground (arith, split_mode_of-ok (ℤ.pos k) k mode),
          λ e. ground (arith, small, back, e),
        ),
        λ k h. ground arith,
      )
