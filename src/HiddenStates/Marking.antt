-- ===== src/HiddenStates/Marking.antt =====
-- The slots that the callback has marked as seen.
use mathlib.Core.Path.{subst}
use llama_cpp_rs.Prelude.{
  ℕ, ◌*◌, ◌≡◌, ◌≢◌, refl, ap, ◌∙◌, ◌⊎◌, inl, inr, true, false, ◌&&◌, none, some, List, [], ◌∷◌, map,
  length, All, ◌==◌, ==_iff, arith, Bool-cases,
}
use llama_cpp_rs.HiddenStates.{Slot, Capture, contains, new}
use llama_cpp_rs.HiddenStates.Name.{layer_from_name}
use llama_cpp_rs.HiddenStates.Row.{Tensor, row_offset}
use llama_cpp_rs.HiddenStates.Machine.{Native, buffered, all_finite, read_slot, update_slot}
use llama_cpp_rs.HiddenStates.Machine.Slots.{layers_of, IsExact}
use llama_cpp_rs.HiddenStates.Construction.{IsDistinct}

-- The callback can read the tensor as the residual of the layer.
pub record IsReadable {F : Type 0} (native : Native F) (width rows outputs layer : ℕ) (t : Tensor)
    : Type 0 where
  pub offset : ℕ
  pub name : layer_from_name t.name ≡ some layer
  pub row : row_offset native.type_f32 t width rows outputs ≡ some offset
  pub backed : (t.has_data && buffered t) ≡ true
  pub finite : all_finite native (native.tensor_get t offset (width * 4)) ≡ true

-- The slot has been seen if its layer is in the list, and is as wide as the model.
abbrev pub Marked : {F : Type 0} → ℕ → List ℕ → Slot F → Type 0
Marked width seen s = (s.seen ≡ contains seen s.snapshot.layer) × (length s.snapshot.values ≡ width)

-- the layers seen after the tensors `ts`
abbrev pub after : List ℕ → List (ℕ × Tensor) → List ℕ
after seen [] = seen
after seen (p ∷ ts) = after (p.0 ∷ seen) ts

pub contains-after :
    (seen : List ℕ) (ts : List (ℕ × Tensor)) (x : ℕ)
    → (contains seen x ≡ true) ⊎ (contains (map (λ p. p.0) ts) x ≡ true)
    → contains (after seen ts) x ≡ true
unfolding contains
contains-after seen [] x (inl h) = h
contains-after seen [] x (inr h) = ground arith
contains-after seen (p ∷ ts) x (inl h) = contains-after (p.0 ∷ seen) ts x (inl (ground (arith, h)))
contains-after seen (p ∷ ts) x (inr h) = elim (Bool-cases (x == p.0)) [
  | inl e ↦ contains-after (p.0 ∷ seen) ts x (inl (ground (arith, e)))
  | inr e ↦ contains-after (p.0 ∷ seen) ts x (inr (ground (arith, e, h)))
]

pub fresh_after :
    (seen : List ℕ) (l : ℕ) (ts : List (ℕ × Tensor))
    → All (λ x. x ≢ l) (map (λ p. p.0) ts)
    → All (λ p. contains seen p.0 ≡ false) ts
    → All (λ p. contains (l ∷ seen) p.0 ≡ false) ts
unfolding contains
fresh_after seen l [] other h = tt
fresh_after seen l (p ∷ ts) (n, other) (e, h) =
    (ground (arith, e, n, ==_iff p.0 l), fresh_after seen l ts other h)

module _ {F : Type 0} where
  -- the capture with these slots, and no error
  abbrev pub holding : Capture F → List (Slot F) → Capture F
  holding c ss = record c { state = record c.state { slots = ss; error = none } }

module _ {F : Type 0} (native : Native F) (exact : IsExact native) (width rows outputs : ℕ) where
  abbrev filled : Slot F → Tensor → ℕ → Slot F
  filled s t o = record {
    snapshot = record { layer = s.snapshot.layer; values = native.tensor_get t o (width * 4) };
    seen = true;
  }

  read_unseen :
      (s : Slot F) (layer : ℕ) (t : Tensor) (r : IsReadable native width rows outputs layer t)
      → s.seen ≡ false
      → length s.snapshot.values ≡ width
      → read_slot native t layer rows outputs s ≡ (filled s t r.offset, none)
  unfolding read_slot
  read_unseen s layer t r unseen wide = ground (arith, unseen, wide, r.row, r.backed, r.finite)

  weaken :
      (seen : List ℕ) (l : ℕ) (ss : List (Slot F))
      → All (λ x. x ≢ l) (layers_of ss)
      → All (Marked width seen) ss
      → All (Marked width (l ∷ seen)) ss
  unfolding contains
  weaken seen l [] other h = tt
  weaken seen l (s ∷ ss) (n, other) (m, h) =
      ((ground (arith, m.0, n, ==_iff s.snapshot.layer l), m.1), weaken seen l ss other h)

  pub update-Marked :
      (seen : List ℕ) (l : ℕ) (t : Tensor) (ss : List (Slot F))
      → IsReadable native width rows outputs l t
      → contains seen l ≡ false
      → IsDistinct (layers_of ss)
      → contains (layers_of ss) l ≡ true
      → All (Marked width seen) ss
      → (ss' : List (Slot F)) × (update_slot l (read_slot native t l rows outputs) ss
          ≡ some (ss', none))
        × (layers_of ss' ≡ layers_of ss)
        × All (Marked width (l ∷ seen)) ss'
  unfolding update_slot contains
  update-Marked seen l t [] r new distinct here h = ground arith
  update-Marked seen l t (s ∷ ss) r new (other, distinct) here (m, h) =
      elim (Bool-cases (s.snapshot.layer == l)) [
        | inl found ↦
            let same : s.snapshot.layer ≡ l = (==_iff s.snapshot.layer l).0 found in
            let unseen : s.seen ≡ false = m.0 ∙ ap (contains seen) same ∙ new in
            let run = read_unseen s l t r unseen m.1 in
            (
              filled s t r.offset ∷ ss,
              ground (arith, found, run),
              refl,
              (
                (ground (arith, found), exact.exact t r.offset width),
                weaken seen l ss (subst (λ n. All (λ x. x ≢ n) (layers_of ss)) same other) h,
              ),
            )
        | inr missed ↦
            let later : contains (layers_of ss) l ≡ true =
              ground (arith, ==_iff s.snapshot.layer l, ==_iff l s.snapshot.layer) in
            let (ss', run, layers, marked) = update-Marked seen l t ss r new distinct later h in
            (
              s ∷ ss',
              ground (arith, missed, run),
              ap (λ ls. s.snapshot.layer ∷ ls) layers,
              ((ground (arith, missed, m.0), m.1), marked),
            )
      ]
