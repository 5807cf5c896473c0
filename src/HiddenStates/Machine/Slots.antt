-- ===== src/HiddenStates/Machine/Slots.antt =====
-- What the methods of the capture do to its slots.
use mathlib.Core.Path.{subst}
use llama_cpp_rs.Prelude.{
  ℕ, suc, ◌*◌, ◌≡◌, refl, ap, sym, ◌∙◌, ◌&&◌, true, false, ==_iff, if_rule, Option, none, some,
  List, [], ◌∷◌, map, length, ◌==◌, arith, All, Bool-cases, Option-cases, inl, inr,
}
use llama_cpp_rs.Prelude.Result.{Result, Result-cases}
use llama_cpp_rs.HiddenStates.{HiddenStateCaptureError, LayerHiddenState, Slot, Reserve}
use llama_cpp_rs.HiddenStates.Name.{layer_from_name}
use llama_cpp_rs.HiddenStates.Row.{Tensor, row_offset}
use llama_cpp_rs.HiddenStates.Machine.{
  Native, buffered, clear_seen, first_unseen, copy_slots, all_finite, read_slot, update_slot,
}

abbrev pub layers_of : {F : Type 0} → List (Slot F) → List ℕ
layers_of = map (λ s. s.snapshot.layer)

abbrev pub snapshots_of : {F : Type 0} → List (Slot F) → List (LayerHiddenState F)
snapshots_of = map (λ s. s.snapshot)

abbrev pub AllSeen : {F : Type 0} → List (Slot F) → Type 0
AllSeen = All (λ s. s.seen ≡ true)

-- `ggml_backend_tensor_get` reads as many bytes as it is asked for.
pub record IsExact {F : Type 0} (native : Native F) : Type 0 where
  pub exact : (t : Tensor) (offset n : ℕ) → length (native.tensor_get t offset (n * 4)) ≡ n

-- The values were read from a tensor that bears the name of the layer, at the offset of its last row.
pub record IsRead {F : Type 0} (native : Native F) (width : ℕ) (v : LayerHiddenState F)
    : Type 0 where
  pub tensor : Tensor
  pub rows : ℕ
  pub outputs : ℕ
  pub offset : ℕ
  pub name : layer_from_name tensor.name ≡ some v.layer
  pub row : row_offset native.type_f32 tensor width rows outputs ≡ some offset
  pub read : v.values ≡ native.tensor_get tensor offset (width * 4)

-- A slot is as wide as the model, and holds finite values of the layer's tensor once it was seen.
pub record IsGood {F : Type 0} (native : Native F) (width : ℕ) (s : Slot F) : Type 0 where
  pub wide : length s.snapshot.values ≡ width
  pub finite : s.seen ≡ true → all_finite native s.snapshot.values ≡ true
  pub source : s.seen ≡ true → IsRead native width s.snapshot

module _ {F : Type 0} where
  pub layers_of-clear_seen : (ss : List (Slot F)) → layers_of (clear_seen ss) ≡ layers_of ss
  unfolding clear_seen
  layers_of-clear_seen [] = refl
  layers_of-clear_seen (s ∷ ss) = ap (◌∷◌ s.snapshot.layer) (layers_of-clear_seen ss)

  pub first_unseen-none : (ss : List (Slot F)) → first_unseen ss ≡ none → AllSeen ss
  unfolding first_unseen
  first_unseen-none [] h = tt
  first_unseen-none (s ∷ ss) h = (ground arith, first_unseen-none ss (ground arith))

  pub copy_slots_ok :
      (reserve : Reserve) (k : ℕ) (ss : List (Slot F)) (copies : List (LayerHiddenState F))
      → copy_slots reserve k ss ≡ Result.ok copies
      → copies ≡ snapshots_of ss
  unfolding copy_slots
  copy_slots_ok reserve k [] copies h = ground arith
  copy_slots_ok reserve k (s ∷ ss) copies h = elim (Result-cases (copy_slots reserve (suc k) ss)) [
    | inl (cs, e) ↦ ground (arith, copy_slots_ok reserve (suc k) ss cs e)
    | inr (x, e) ↦ ground arith
  ]

module _ {F : Type 0} (native : Native F) (width : ℕ) where
  not_seen : false ≡ true → ⊥
  not_seen h = cc

  pub clear_seen-IsGood :
      (ss : List (Slot F))
      → All (IsGood native width) ss
      → All (IsGood native width) (clear_seen ss)
  unfolding clear_seen
  clear_seen-IsGood [] h = tt
  clear_seen-IsGood (s ∷ ss) (g, h) = (
    record { wide = g.wide; finite = λ e. cc; source = λ e. elim (not_seen e) [ ] },
    clear_seen-IsGood ss h,
  )

  -- What `f` does to a slot of the layer: it keeps the layer and the promise of the slot.
  abbrev pub Keeps : ℕ → (Slot F → Slot F × Option HiddenStateCaptureError) → Type 0
  Keeps layer f =
      (s : Slot F)
      → s.snapshot.layer ≡ layer
      → IsGood native width s
      → ((f s).0.snapshot.layer ≡ s.snapshot.layer) × IsGood native width (f s).0

  pub update_slot-IsGood :
      (layer : ℕ) (f : Slot F → Slot F × Option HiddenStateCaptureError) (ss ss' : List (Slot F))
      (e : Option HiddenStateCaptureError)
      → Keeps layer f
      → All (IsGood native width) ss
      → update_slot layer f ss ≡ some (ss', e)
      → (layers_of ss' ≡ layers_of ss) × All (IsGood native width) ss'
  unfolding update_slot
  update_slot-IsGood layer f [] ss' e k h p = cc
  update_slot-IsGood layer f (s ∷ ss) ss' e k (g, h) p =
      elim (Bool-cases (s.snapshot.layer == layer)) [
        | inl found ↦
            let is : ss' ≡ (f s).0 ∷ ss = ground arith in
            let kept = k s ((==_iff s.snapshot.layer layer).0 found) g in
            rw is (ap (λ l. l ∷ layers_of ss) kept.0, (kept.1, h))
        | inr other ↦ elim (Option-cases (update_slot layer f ss)) [
          | inl missing ↦ ground arith
          | inr ((ts, x), later) ↦
              let is : ss' ≡ s ∷ ts = ground arith in
              let (same, good) = update_slot-IsGood layer f ss ts x k h later in
              rw is (ap (◌∷◌ s.snapshot.layer) same, (g, good))
        ]
      ]

  pub read_slot-Keeps :
      IsExact native
      → (t : Tensor) (layer rows outputs : ℕ) → layer_from_name t.name ≡ some layer
      → Keeps layer (read_slot native t layer rows outputs)
  unfolding read_slot
  read_slot-Keeps x t layer rows outputs named s same g =
      elim (Option-cases (row_offset native.type_f32 t (length s.snapshot.values) rows outputs)) [
        | inl e ↦ (ground arith, ground arith)
        | inr (o, e) ↦
            let P : Slot F × Option HiddenStateCaptureError → Type 0 =
              λ r. (r.0.snapshot.layer ≡ s.snapshot.layer) × IsGood native width r.0 in
            let wide = x.exact t o (length s.snapshot.values) ∙ g.wide in
            let values = native.tensor_get t o (length s.snapshot.values * 4) in
            let source : IsRead native width (record s.snapshot { values = values }) = record {
              tensor = t;
              rows = rows;
              outputs = outputs;
              offset = o;
              name = named ∙ ap some (sym same);
              row = subst (λ n. row_offset native.type_f32 t n rows outputs ≡ some o) g.wide e;
              read = ap (λ n. native.tensor_get t o (n * 4)) g.wide;
            } in
            rw (e, read_slot)
              (if_rule P s.seen _ _ (λ _. (refl, g))
                λ _.
                  if_rule P (t.has_data && buffered t) _ _
                    (λ _.
                      if_rule P (all_finite native values) _ _
                        (λ good.
                          (refl, record { wide = wide; finite = λ _. good; source = λ _. source }))
                        λ _. (
                          refl,
                          record {
                            wide = wide;
                            finite = λ h. elim (not_seen h) [ ];
                            source = λ h. elim (not_seen h) [ ];
                          },
                        ))
                    λ _. (refl, g))
      ]
