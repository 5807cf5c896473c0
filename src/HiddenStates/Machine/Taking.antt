-- ===== src/HiddenStates/Machine/Taking.antt =====
-- `take`: what it returns, and what it leaves.
use llama_cpp_rs.Prelude.{
  ℕ, ◌≡◌, refl, ap, ◌∙◌, true, false, none, List, [], ◌∷◌, arith, length, All, inl, inr, map,
}
use llama_cpp_rs.Prelude.Run.{ok, err}
use llama_cpp_rs.Prelude.Result.{Result-cases}
use llama_cpp_rs.HiddenStates.{
  HiddenStateCaptureError, no_capture, Slot, Capture, Reserve, LayerHiddenState,
}
use llama_cpp_rs.HiddenStates.Machine.{Native, copy_slots, take, all_finite}
use llama_cpp_rs.HiddenStates.Machine.Slots.{
  layers_of, snapshots_of, AllSeen, IsGood, IsRead, copy_slots_ok,
}
use llama_cpp_rs.HiddenStates.Machine.Soundness.{IsSound}

-- A successful `take` reads a ready state with no error, whole, and ends its readiness.
pub record Taken {F : Type 0} (c : Capture F) (copies : List (LayerHiddenState F)) (c' : Capture F)
    : Type 0 where
  pub healthy : c.poisoned ≡ false
  pub ready : c.state.ready ≡ true
  pub clean : c.state.error ≡ none
  pub copied : copies ≡ snapshots_of c.state.slots
  pub consumed : c' ≡ record c { state = record c.state { ready = false } }

module _ {F : Type 0} (reserve : Reserve) (c : Capture F) where
  take_inv :
      (copies : List (LayerHiddenState F)) (c' : Capture F)
      → take reserve c ≡ ok copies c'
      → Taken c copies c'
  unfolding take
  take_inv copies c' h = elim (Result-cases (copy_slots reserve 1 c.state.slots)) [
    | inl (cs, e) ↦ ground (arith, copy_slots_ok reserve 1 c.state.slots cs e)
    | inr (x, e) ↦ ground arith
  ]

  -- A failed `take` changes nothing.
  take_err : (e : HiddenStateCaptureError) (c' : Capture F) → take reserve c ≡ err e c' → c' ≡ c
  unfolding take
  take_err e c' h = ground arith

  -- After a `take` that returned the snapshots the next `take` returns `NoCapture`, whatever the
  -- allocator grants.
  take_once :
      (copies : List (LayerHiddenState F)) (c' : Capture F) (again : Reserve)
      → take reserve c ≡ ok copies c'
      → take again c' ≡ err no_capture c'
  unfolding take
  take_once copies c' again h =
      let taken = take_inv copies c' h in ground (arith, taken.consumed, taken.healthy)

-- One of the vectors that `take` returns, for a model of this width.
pub record IsWhole {F : Type 0} (native : Native F) (width : ℕ) (v : LayerHiddenState F)
    : Type 0 where
  pub wide : length v.values ≡ width
  pub finite : all_finite native v.values ≡ true
  pub source : IsRead native width v

module _ {F : Type 0} (native : Native F) (width : ℕ) where
  layers-snapshots : (ss : List (Slot F)) → map (λ v. v.layer) (snapshots_of ss) ≡ layers_of ss
  layers-snapshots [] = refl
  layers-snapshots (s ∷ ss) = ap (◌∷◌ s.snapshot.layer) (layers-snapshots ss)

  snapshots-IsWhole :
      (ss : List (Slot F))
      → All (IsGood native width) ss
      → AllSeen ss
      → All (IsWhole native width) (snapshots_of ss)
  snapshots-IsWhole [] h a = tt
  snapshots-IsWhole (s ∷ ss) (g, h) (e, a) =
      (record { wide = g.wide; finite = g.finite e; source = g.source e }, snapshots-IsWhole ss h a)

  -- From a sound capture `take` returns every configured layer, in order, and each of its vectors
  -- is as wide as the model, finite, and read from a tensor of its layer.
  pub take-IsWhole :
      (layers : List ℕ) (reserve : Reserve) (c : Capture F) (copies : List (LayerHiddenState F))
      (c' : Capture F)
      → IsSound native layers width c.state
      → take reserve c ≡ ok copies c'
      → (map (λ v. v.layer) copies ≡ layers) × All (IsWhole native width) copies
  take-IsWhole layers reserve c copies c' h t =
      let taken = take_inv reserve c copies c' t in
      rw taken.copied (
        layers-snapshots c.state.slots ∙ h.configured,
        snapshots-IsWhole c.state.slots h.good (h.complete taken.ready taken.clean),
      )

  pub take-IsSound :
      (layers : List ℕ) (reserve : Reserve) (c : Capture F) (copies : List (LayerHiddenState F))
      (c' : Capture F)
      → IsSound native layers width c.state
      → take reserve c ≡ ok copies c'
      → IsSound native layers width c'.state
  take-IsSound layers reserve c copies c' h t =
      rw (take_inv reserve c copies c' t).consumed (record {
        configured = h.configured;
        good = h.good;
        exclusive = λ _. refl;
        complete = λ p q. cc;
      })
