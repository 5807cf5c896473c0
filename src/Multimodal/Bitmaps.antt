-- ===== src/Multimodal/Bitmaps.antt =====
-- mtmd.rs: `from_image_data`, and the bytes that llama.cpp reads.
use llama_cpp_rs.Prelude.{
  ℕ, ◌*◌, ◌%◌, ◌≡◌, ◌≢◌, ◌≤◌, ◌<◌, ◌↔◌, false, Option, none, some, length, ltb, ◌==◌, arith,
  u32_limit, Bool-cases, inl, inr,
}
use llama_cpp_rs.Prelude.Run.{fault}
use llama_cpp_rs.Prelude.Text.{Text}
use llama_cpp_rs.Multimodal.{
  MtmdBitmapError, or_null, u32_mul, image_size, BitmapApi, bitmap_init, from_image_data,
}

-- llama.cpp reads three bytes for each pixel.
abbrev pub ReadsPixels : {S : Type 0} → BitmapApi S → Type 0
ReadsPixels api = (nx ny : ℕ) → api.init_reads nx ny ≡ nx * ny * 3

-- The number of bytes that a build without overflow checks compares with.
unfoldable pub wrapped : ℕ → ℕ → ℕ
wrapped nx ny = nx * ny % u32_limit * 3 % u32_limit

mod_small : (n : ℕ) → n < u32_limit → n % u32_limit ≡ n
mod_small n h = ground arith

mod_below : (n : ℕ) → n % u32_limit < u32_limit
mod_below n = ground arith

u32_mul_wrap : (a b : ℕ) → u32_mul false a b ≡ some (a * b % u32_limit)
unfolding u32_mul
u32_mul_wrap a b = elim (Bool-cases (ltb (a * b) u32_limit)) [
  | inl e ↦ ground (arith, e, mod_small (a * b))
  | inr e ↦ ground (arith, e)
]

image_size_wrap : (nx ny : ℕ) → image_size false nx ny ≡ some (wrapped nx ny)
unfolding image_size wrapped
image_size_wrap nx ny = ground (arith, u32_mul_wrap nx ny, u32_mul_wrap (nx * ny % u32_limit) 3)

module _ {S : Type 0} (api : BitmapApi S) (reads : ReadsPixels api) where
  or_null-no_fault : (r : Option ℕ × S) → or_null MtmdBitmapError.null_result r ≢ fault
  unfolding or_null
  or_null-no_fault (none, s) = λ e. cc
  or_null-no_fault (some a, s) = λ e. cc

  -- An image whose size fits a `u32`: what is compared is the size.
  wrapped_small : (nx ny : ℕ) → nx * ny * 3 < u32_limit → wrapped nx ny ≡ nx * ny * 3
  unfolding wrapped
  wrapped_small nx ny h =
      let n : ℕ = nx * ny in
      let first : nx * ny % u32_limit ≡ nx * ny = mod_small (nx * ny) (omega arith) in
      rw first (mod_small (nx * ny * 3) h)

  wrapped_below : (nx ny : ℕ) → wrapped nx ny < u32_limit
  unfolding wrapped
  wrapped_below nx ny = mod_below (nx * ny % u32_limit * 3)

  -- In a build without overflow checks `from_image_data` makes llama.cpp read past the end of the data
  -- exactly where the size of the image does not fit a `u32` and the data have the size that is left of
  -- it after the wrapping, as no data at all for an image of 65536 times 65536 pixels.
  pub from_image_data-fault_iff :
      (nx ny : ℕ) (bytes : Text) (s : S)
      → (from_image_data api false nx ny bytes s ≡ fault)
        ↔ (u32_limit ≤ nx * ny * 3) × (length bytes ≡ wrapped nx ny)
  unfolding from_image_data bitmap_init
  from_image_data-fault_iff nx ny bytes s =
      let size = image_size_wrap nx ny in
      let below = wrapped_below nx ny in
      let small = wrapped_small nx ny in
      let read = reads nx ny in
      let made = or_null-no_fault (api.init nx ny bytes s) in
      elim (Bool-cases (length bytes == wrapped nx ny)) [
        | inl e ↦ elim (Bool-cases (ltb (length bytes) (nx * ny * 3))) [
          | inl short ↦ (
            λ f. (ground (arith, e, short, small), ground (arith, e)),
            λ (p, q). ground (arith, size, e, short, read),
          )
          | inr full ↦ (
            λ f. absurd (made (ground (arith, size, e, full, read, f))),
            λ (p, q). absurd (ground (arith, e, full, below, p, q)),
          )
        ]
        | inr e ↦ (λ f. ground (arith, size, e, f), λ (p, q). ground (arith, e, q))
      ]
