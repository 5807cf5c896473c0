-- ===== src/HiddenStates/Row.antt =====
-- `row_offset` of llama-cpp-2/src/context/hidden_states.rs, and the fields of a `ggml_tensor` that
-- the capture reads. The tag of the type `f32` comes from the generated bindings: a parameter.
pub mod Bounds
use llama_cpp_rs.Prelude.{
  ℕ, ◌+◌, ◌-◌, ◌*◌, Bool, true, false, ◌&&◌, ◌||◌, not, Option, none, some, List, ltb, leb, ◌==◌,
  if◌then◌else◌, ℤ, int_eqb, to_usize, usize_limit,
}
use llama_cpp_rs.Batch.{and_then}
use llama_cpp_rs.HiddenStates.{f32_size}

-- `ne` and `nb` are the extents and the strides; the last three fields tell which pointers are not
-- null, `view_src` with the buffer of the source.
pub record Tensor : Type 0 where
  pub name : List ℤ
  pub type_ : ℕ
  pub ne0 : ℤ
  pub ne1 : ℤ
  pub ne2 : ℤ
  pub ne3 : ℤ
  pub nb0 : ℕ
  pub nb1 : ℕ
  pub nb2 : ℕ
  pub nb3 : ℕ
  pub has_data : Bool
  pub has_buffer : Bool
  pub view_src : Option Bool

abbrev pub checked_usize : ℕ → Option ℕ
checked_usize n = if ltb n usize_limit then some n else none

abbrev pub is_usize : ℤ → ℕ → Bool
is_usize (ℤ.pos n) m = n == m
is_usize (ℤ.negsuc n) m = false

-- the layout that is accepted, for `k` rows of `row_bytes` bytes, `total` in all
unfoldable pub layout_ok : ℕ → Tensor → ℕ → ℕ → ℕ → ℕ → ℕ → ℕ → Bool
layout_ok type_f32 t width rows outputs k row_bytes total =
    t.type_ == type_f32
    && is_usize t.ne0 width
    && not (k == 0)
    && (k == rows || k == outputs)
    && int_eqb t.ne2 (ℤ.pos 1)
    && int_eqb t.ne3 (ℤ.pos 1)
    && t.nb0 == f32_size
    && t.nb1 == row_bytes
    && t.nb2 == total
    && t.nb3 == total

unfoldable pub row_offset : ℕ → Tensor → ℕ → ℕ → ℕ → Option ℕ
row_offset type_f32 t width rows outputs = and_then (to_usize t.ne1) λ tensor_rows.
    and_then (checked_usize (width * f32_size)) λ row_bytes.
      and_then (checked_usize (row_bytes * tensor_rows)) λ total.
        if layout_ok type_f32 t width rows outputs tensor_rows row_bytes total
        then (if ltb total row_bytes then none else some (total - row_bytes))
        else none
