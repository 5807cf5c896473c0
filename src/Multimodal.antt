-- ===== src/Multimodal.antt =====
-- llama-cpp-2/src/mtmd.rs: contexts, bitmaps and the tokenization of texts with media. What llama.cpp's
-- multimodal library does is a parameter, over the world `S` that it changes; a null pointer is none.
pub mod Bitmaps
pub mod Chunks
use llama_cpp_rs.Prelude.{
  ℕ, zero, suc, ◌*◌, ◌%◌, Bool, true, false, not, List, [], ◌∷◌, Option, none, some, length, ltb,
  leb, ◌==◌, if◌then◌else◌, ℤ, u32_limit,
}
use llama_cpp_rs.Prelude.Run.{Run, ok, err, panic, fault, Method}
use llama_cpp_rs.Prelude.Text.{Text}
use llama_cpp_rs.Prelude.Result
use llama_cpp_rs.Model.{c_string}

pub data MtmdInputChunkType : Type 0 where
  text image audio : MtmdInputChunkType

-- llama.cpp's numbers of the types
pub record ChunkTypes : Type 0 where
  pub type_text : ℕ
  pub type_image : ℕ
  pub type_audio : ℕ

-- `from`; none is the panic
unfoldable pub chunk_type_from : ChunkTypes → ℕ → Option MtmdInputChunkType
chunk_type_from t n =
    if n == t.type_text
    then some text
    else (if n == t.type_image
        then some image
        else (if n == t.type_audio then some audio else none))

pub data MtmdInitError : Type 0 where
  c_string_error : ℕ → MtmdInitError
  null_result : MtmdInitError

pub data MtmdBitmapError : Type 0 where
  c_string_error : ℕ → MtmdBitmapError
  invalid_data_size null_result : MtmdBitmapError

pub data MtmdTokenizeError : Type 0 where
  bitmap_count_mismatch image_preprocessing_error : MtmdTokenizeError
  c_string_error : ℕ → MtmdTokenizeError
  unknown_error : ℤ → MtmdTokenizeError

-- A wrapper of the pointer that llama.cpp returned, or the error where it is null.
unfoldable pub or_null : {S E : Type 0} → E → Option ℕ × S → Run S E ℕ
or_null e (none, s) = err e s
or_null e (some address, s) = ok address s

-- `init_from_file`
unfoldable pub init_from_file :
    {S : Type 0} → (Text → S → Option ℕ × S) → Text → Method S MtmdInitError ℕ
init_from_file init mmproj_path s = elim (c_string mmproj_path) [
  | Result.ok path ↦ or_null MtmdInitError.null_result (init path s)
  | Result.err i ↦ err (MtmdInitError.c_string_error i) s
]

-- `get_audio_sample_rate`
unfoldable pub get_audio_sample_rate : ℤ → Option ℕ
get_audio_sample_rate (ℤ.pos zero) = none
get_audio_sample_rate (ℤ.pos (suc n)) = some (suc n)
get_audio_sample_rate (ℤ.negsuc n) = none

-- `a * b` of two `u32`; none is the panic of a build that checks for overflow
unfoldable pub u32_mul : (checks : Bool) → ℕ → ℕ → Option ℕ
u32_mul checks a b =
    if ltb (a * b) u32_limit
    then some (a * b)
    else (if checks then none else some (a * b % u32_limit))

-- `nx * ny * 3`
unfoldable pub image_size : (checks : Bool) → ℕ → ℕ → Option ℕ
image_size checks nx ny = elim (u32_mul checks nx ny) [ none ↦ none | some n ↦ u32_mul checks n 3 ]

-- llama.cpp's constructors of bitmaps, and how many bytes the one of an image reads
pub record BitmapApi (S : Type 0) : Type 0 where
  pub init : ℕ → ℕ → Text → S → Option ℕ × S
  pub init_reads : ℕ → ℕ → ℕ
  pub from_file : Text → Bool → S → Option ℕ × S
  pub from_buf : Text → Bool → S → Option ℕ × S

module _ {S : Type 0} (api : BitmapApi S) where
  -- the call, which is undefined where it reads past the end of the data
  unfoldable pub bitmap_init : ℕ → ℕ → Text → Method S MtmdBitmapError ℕ
  bitmap_init nx ny bytes s =
      if ltb (length bytes) (api.init_reads nx ny)
      then fault
      else or_null MtmdBitmapError.null_result (api.init nx ny bytes s)

  unfoldable pub from_image_data : Bool → ℕ → ℕ → Text → Method S MtmdBitmapError ℕ
  from_image_data checks nx ny bytes s = elim (image_size checks nx ny) [
    | none ↦ panic
    | some size ↦
        if not (length bytes == size) then err invalid_data_size s else bitmap_init nx ny bytes s
  ]

  unfoldable pub from_file : Text → Bool → Method S MtmdBitmapError ℕ
  from_file path placeholder s = elim (c_string path) [
    | Result.ok name ↦ or_null MtmdBitmapError.null_result (api.from_file name placeholder s)
    | Result.err i ↦ err (MtmdBitmapError.c_string_error i) s
  ]

  unfoldable pub from_buffer : Text → Bool → Method S MtmdBitmapError ℕ
  from_buffer bytes placeholder s =
      or_null MtmdBitmapError.null_result (api.from_buf bytes placeholder s)
