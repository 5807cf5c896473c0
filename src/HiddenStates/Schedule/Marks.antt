-- ===== src/HiddenStates/Schedule/Marks.antt =====
-- The slots that a schedule of the callback of llama-cpp-2/src/context/hidden_states.rs marks as seen.
use mathlib.Core.Path.{subst}
use llama_cpp_rs.Prelude.{
  ℕ, ◌≡◌, sym, ap, ◌∙◌, inl, inr, Bool, true, false, none, some, Option, List, ◌∷◌, ◌++◌, map, All,
}
use llama_cpp_rs.HiddenStates.{Slot, Capture, contains}
use llama_cpp_rs.HiddenStates.Row.{Tensor}
use llama_cpp_rs.HiddenStates.Machine.{Native, read_slot, update_slot, calls}
use llama_cpp_rs.HiddenStates.Machine.Slots.{layers_of, IsExact}
use llama_cpp_rs.HiddenStates.Construction.{IsDistinct}
use llama_cpp_rs.HiddenStates.Marking.{
  IsReadable, Marked, after, fresh_after, holding, update-Marked,
}
use llama_cpp_rs.HiddenStates.Schedule.{
  asked, shown_to, Schedules, finished, skipped, shown, cancelled, residuals, Other, residual-cases,
  unwanted_answer, asked_residual, shown_residual,
}

-- What is asked of the tensors that are still to be shown.
pub record Awaited {F : Type 0} (native : Native F) (width rows outputs : ℕ) (seen : List ℕ)
    (rs : List (ℕ × Tensor)) : Type 0 where
  pub readable : All (λ p. IsReadable native width rows outputs p.0 p.1) rs
  pub unseen : All (λ p. contains seen p.0 ≡ false) rs
  pub once : IsDistinct (map (λ p. p.0) rs)

module _ {F : Type 0} (native : Native F) (exact : IsExact native) (width rows outputs : ℕ)
    (c : Capture F) (healthy : c.poisoned ≡ false) (active : c.state.active ≡ true)
    (same_rows : c.state.rows ≡ rows) (same_outputs : c.state.outputs ≡ outputs) where
  contradictory : true ≡ false → ⊥
  contradictory h = cc

  await_next :
      (seen : List ℕ) (l : ℕ) (t : Tensor) (rs : List (ℕ × Tensor))
      → Awaited native width rows outputs seen ((l, t) ∷ rs)
      → Awaited native width rows outputs (l ∷ seen) rs
  await_next seen l t rs w = record {
    readable = w.readable.1;
    unseen = fresh_after seen l rs w.once.0 w.unseen.1;
    once = w.once.1;
  }

  -- What a residual does to the capture when it is asked for and when it is shown.
  Taken : List ℕ → Tensor → List (Slot F) → Type 0
  Taken seen t ss =
      (ss' : List (Slot F)) × (asked native t (holding c ss) ≡ (true, holding c ss))
      × (shown_to native t (holding c ss) ≡ (true, holding c ss'))
      × (layers_of ss' ≡ layers_of ss)
      × All (Marked width seen) ss'

  residual_step :
      (seen : List ℕ) (l : ℕ) (t : Tensor) (rs : List (ℕ × Tensor)) (ss : List (Slot F))
      → Awaited native width rows outputs seen ((l, t) ∷ rs)
      → IsDistinct (layers_of ss)
      → contains (layers_of ss) l ≡ true
      → All (Marked width seen) ss
      → Taken (l ∷ seen) t ss
  unfolding Taken
  residual_step seen l t rs ss w distinct here h =
      let r = w.readable.0 in
      let (ss', run, layers, marked) =
        update-Marked native exact width rows outputs seen l t ss r w.unseen.0 distinct here h in
      let run' =
        subst (λ k. update_slot l (read_slot native t l k c.state.outputs) ss ≡ some (ss', none))
          (sym same_rows)
          (subst (λ k. update_slot l (read_slot native t l rows k) ss ≡ some (ss', none))
            (sym same_outputs) run) in
      (
        ss',
        asked_residual native c l t ss ss' healthy active r.name run',
        shown_residual native c l t ss ss' healthy active r.name run',
        layers,
        marked,
      )

  unwanted_answer_at :
      (config : List ℕ) (t : Tensor) (e : Capture F) (ss : List (Slot F))
      → e ≡ holding c ss
      → layers_of ss ≡ config
      → Other config t
      → asked native t e ≡ (false, holding c ss)
  unwanted_answer_at config t e ss at layers other =
      ap (λ x. asked native t x) at
      ∙ unwanted_answer native c t ss (subst (λ ls. Other ls t) (sym layers) other)

  -- The residual at the head of those awaited, where the capture is one that holds the slots.
  taken_at :
      (config seen : List ℕ) (l : ℕ) (t : Tensor) (rs : List (ℕ × Tensor)) (e : Capture F)
      (ss : List (Slot F))
      → e ≡ holding c ss
      → layers_of ss ≡ config
      → IsDistinct config
      → contains config l ≡ true
      → Awaited native width rows outputs seen ((l, t) ∷ rs)
      → All (Marked width seen) ss
      → (ss' : List (Slot F)) × ((asked native t e).0 ≡ true)
        × (shown_to native t (asked native t e).1 ≡ (true, holding c ss'))
        × (layers_of ss' ≡ config)
        × All (Marked width (l ∷ seen)) ss'
  unfolding Taken
  taken_at config seen l t rs e ss at layers distinct here w h =
      let (ss', ask, show, layers', marked) =
        residual_step seen l t rs ss w (subst IsDistinct (sym layers) distinct)
          (subst (λ ls. contains ls l ≡ true) (sym layers) here) h in
      let step : asked native t e ≡ (true, holding c ss) = ap (λ x. asked native t x) at ∙ ask in
      (
        ss',
        ap (λ p. p.0) step,
        ap (λ p. shown_to native t p.1) step ∙ show,
        layers' ∙ layers,
        marked,
      )

  pub schedule_marks :
      (config seen : List ℕ) (nodes : List Tensor) (cs : List (Option Tensor × Bool))
      (e : Capture F) (ss : List (Slot F))
      → Schedules native e nodes cs
      → e ≡ holding c ss
      → layers_of ss ≡ config
      → IsDistinct config
      → Awaited native width rows outputs seen (residuals config nodes)
      → All (Marked width seen) ss
      → (ss' : List (Slot F)) × (calls native cs e ≡ holding c ss')
        × (layers_of ss' ≡ config)
        × All (Marked width (after seen (residuals config nodes))) ss'
  unfolding calls residuals
  schedule_marks config seen nodes cs e ss (finished c0) at layers distinct w h =
      (ss, at, layers, h)
  schedule_marks config seen nodes cs e ss (skipped c0 t ts cs' refused rest) at layers distinct w
        h =
      elim (residual-cases config t ts) [
        | inl (other, same) ↦
            let step = unwanted_answer_at config t e ss at layers other in
            let (ss', run, layers', marked) =
              schedule_marks config seen ts cs' (asked native t e).1 ss rest (ap (λ p. p.1) step)
                layers distinct (subst (Awaited native width rows outputs seen) same w) h in
            (
              ss',
              run,
              layers',
              subst (λ rs. All (Marked width (after seen rs)) ss') (sym same) marked,
            )
        | inr (l, name, here, same) ↦
            let (ss', ask, _, _, _) =
              taken_at config seen l t (residuals config ts) e ss at layers distinct here
                (subst (Awaited native width rows outputs seen) same w) h in
            absurd (contradictory (sym ask ∙ refused))
      ]
  schedule_marks config seen nodes cs e ss (shown c0 t ts cs' wanted more rest) at layers distinct w
        h =
      elim (residual-cases config t ts) [
        | inl (other, same) ↦ absurd (
            contradictory
              (sym wanted ∙ ap (λ p. p.0) (unwanted_answer_at config t e ss at layers other)))
        | inr (l, name, here, same) ↦
            let awaited = subst (Awaited native width rows outputs seen) same w in
            let (ss', ask, show, layers', marked) =
              taken_at config seen l t (residuals config ts) e ss at layers distinct here awaited
                h in
            let (ss'', run, layers'', marked') =
              schedule_marks config (l ∷ seen) ts cs' (shown_to native t (asked native t e).1).1 ss'
                rest (ap (λ p. p.1) show) layers' distinct
                (await_next seen l t (residuals config ts) awaited) marked in
            (
              ss'',
              run,
              layers'',
              subst (λ rs. All (Marked width (after seen rs)) ss'') (sym same) marked',
            )
      ]
  schedule_marks config seen nodes cs e ss (cancelled c0 t dropped ts cs' wanted refused rest) at
        layers distinct w h =
      elim (residual-cases config t (dropped ++ ts)) [
        | inl (other, same) ↦ absurd (
            contradictory
              (sym wanted ∙ ap (λ p. p.0) (unwanted_answer_at config t e ss at layers other)))
        | inr (l, name, here, same) ↦
            let (ss', ask, show, _, _) =
              taken_at config seen l t (residuals config (dropped ++ ts)) e ss at layers distinct
                here (subst (Awaited native width rows outputs seen) same w) h in
            absurd (contradictory (sym (ap (λ p. p.0) show) ∙ refused))
      ]
