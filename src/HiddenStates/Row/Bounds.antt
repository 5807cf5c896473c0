-- ===== src/HiddenStates/Row/Bounds.antt =====
-- The row that `row_offset` selects, and the bounds of its tensor.
use llama_cpp_rs.Prelude.{
  ℕ, suc, ◌+◌, ◌*◌, ◌<◌, ◌≡◌, ◌⊎◌, some, ℤ, arith, usize_limit, int_eqb_iff, Option-cases, inl, inr,
  to_usize, true,
}
use llama_cpp_rs.HiddenStates.Row.{Tensor, row_offset, layout_ok}

-- A contiguous 2D tensor of `k` rows of `width` values of type `f32`.
pub record IsResidual (type_f32 : ℕ) (t : Tensor) (width k : ℕ) : Type 0 where
  pub type_ : t.type_ ≡ type_f32
  pub ne0 : t.ne0 ≡ ℤ.pos width
  pub ne1 : t.ne1 ≡ ℤ.pos k
  pub ne2 : t.ne2 ≡ ℤ.pos 1
  pub ne3 : t.ne3 ≡ ℤ.pos 1
  pub nb0 : t.nb0 ≡ 4
  pub nb1 : t.nb1 ≡ width * 4
  pub nb2 : t.nb2 ≡ width * 4 * k
  pub nb3 : t.nb3 ≡ width * 4 * k
  pub counted : width * 4 * k < usize_limit

module _ (type_f32 : ℕ) (t : Tensor) (width rows outputs o : ℕ) where
  layout_ok_inv :
      (k row_bytes total : ℕ)
      → layout_ok type_f32 t width rows outputs k row_bytes total ≡ true
      → (t.type_ ≡ type_f32)
        × (t.ne0 ≡ ℤ.pos width)
        × (0 < k)
        × ((k ≡ rows) ⊎ (k ≡ outputs))
        × (t.ne2 ≡ ℤ.pos 1)
        × (t.ne3 ≡ ℤ.pos 1)
        × (t.nb0 ≡ 4)
        × (t.nb1 ≡ row_bytes)
        × (t.nb2 ≡ total)
        × (t.nb3 ≡ total)
  unfolding layout_ok
  layout_ok_inv k row_bytes total h =
      ground (arith, int_eqb_iff t.ne2 (ℤ.pos 1), int_eqb_iff t.ne3 (ℤ.pos 1))

  row_offset_counted :
      row_offset type_f32 t width rows outputs ≡ some o
      → (k : ℕ) × (t.ne1 ≡ ℤ.pos k)
        × (layout_ok type_f32 t width rows outputs k (width * 4) (width * 4 * k) ≡ true)
        × (o + width * 4 ≡ width * 4 * k)
        × (width * 4 * k < usize_limit)
  unfolding row_offset
  row_offset_counted h = elim (Option-cases (to_usize t.ne1)) [
    | inl e ↦ ground arith
    | inr (k, e) ↦ (k, ground arith, ground arith, ground arith, ground arith)
  ]

  -- An accepted tensor is a contiguous f32 residual with a row for each token or for each output;
  -- the selected row is its last, so that its bytes end where those of the tensor end.
  pub row_offset_bounds :
      row_offset type_f32 t width rows outputs ≡ some o
      → (k : ℕ) × IsResidual type_f32 t width k
        × ((k ≡ rows) ⊎ (k ≡ outputs))
        × (o + width * 4 ≡ width * 4 * k)
  row_offset_bounds h =
      let (k, e, fits, last, counted) = row_offset_counted h in
      let (a, b, c, d, e2, e3, n0, n1, n2, n3) = layout_ok_inv k (width * 4) (width * 4 * k) fits in
      (
        k,
        record {
          type_ = a;
          ne0 = b;
          ne1 = e;
          ne2 = e2;
          ne3 = e3;
          nb0 = n0;
          nb1 = n1;
          nb2 = n2;
          nb3 = n3;
          counted = counted;
        },
        d,
        last,
      )

module _ (type_f32 : ℕ) (t : Tensor) (width rows outputs k : ℕ)
    (r : IsResidual type_f32 t width (suc k)) where
  layout_ok_complete :
      (suc k ≡ rows) ⊎ (suc k ≡ outputs)
      → layout_ok type_f32 t width rows outputs (suc k) (width * 4) (width * 4 * suc k) ≡ true
  unfolding layout_ok
  layout_ok_complete h =
      ground (arith, r.type_, r.ne0, int_eqb_iff t.ne2 (ℤ.pos 1), int_eqb_iff t.ne3 (ℤ.pos 1))

  one_more : width * 4 * suc k ≡ width * 4 * k + width * 4
  one_more = omega arith

  -- Every such residual with at least one row, for each token or for each output, is accepted with the
  -- offset of its last row.
  pub row_offset_complete :
      (suc k ≡ rows) ⊎ (suc k ≡ outputs)
      → row_offset type_f32 t width rows outputs ≡ some (width * 4 * k)
  unfolding row_offset
  row_offset_complete h = ground (arith, r.ne1, one_more, layout_ok_complete h, r.counted)
