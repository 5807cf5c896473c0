-- ===== src/HiddenStates/Schedule.antt =====
-- The calls that ggml's scheduler makes of the callback of llama-cpp-2/src/context/hidden_states.rs, and
-- what they do to the slots. The scheduler asks before it computes a node whether the callback wants to
-- see it, and shows it the node after; that is the documentation of `ggml_backend_sched_eval_callback`.
pub mod Marks
use mathlib.Core.Path.{subst}
use llama_cpp_rs.Prelude.{
  ℕ, ◌≡◌, ◌≢◌, refl, sym, ap, ◌∙◌, ◌⊎◌, inl, inr, Bool, true, false, none, some, Option, List, [],
  ◌∷◌, ◌++◌, map, All, ◌==◌, ==_iff, arith, Bool-cases, Option-cases, if◌then◌else◌,
}
use llama_cpp_rs.HiddenStates.{HiddenStateCaptureError, Slot, Capture, contains}
use llama_cpp_rs.HiddenStates.Name.{layer_from_name}
use llama_cpp_rs.HiddenStates.Row.{Tensor}
use llama_cpp_rs.HiddenStates.Machine.{
  Native, read_slot, update_slot, observe_slot, observe_layer, observe, callback, calls,
}
use llama_cpp_rs.HiddenStates.Machine.Slots.{layers_of, IsExact}
use llama_cpp_rs.HiddenStates.Construction.{IsDistinct}
use llama_cpp_rs.HiddenStates.Marking.{
  IsReadable, Marked, after, fresh_after, holding, update-Marked,
}

module _ {F : Type 0} (native : Native F) where
  -- what the callback answers when it is asked for a tensor, and the capture that it leaves
  abbrev pub asked : Tensor → Capture F → Bool × Capture F
  asked t c = callback native (some t) true c

  -- the same when it is shown the tensor
  abbrev pub shown_to : Tensor → Capture F → Bool × Capture F
  shown_to t c = callback native (some t) false c

  -- The scheduler makes these calls for the nodes of a graph, from this capture: a node that is not wanted
  -- is not shown, and an answer of false to a node that is shown cancels what it drops of the nodes.
  pub data Schedules : Capture F → List Tensor → List (Option Tensor × Bool) → Type 0 where
    finished : (c : Capture F) → Schedules c [] []
    skipped :
        (c : Capture F) (t : Tensor) (ts : List Tensor) (cs : List (Option Tensor × Bool))
        → (asked t c).0 ≡ false
        → Schedules (asked t c).1 ts cs
        → Schedules c (t ∷ ts) ((some t, true) ∷ cs)
    shown :
        (c : Capture F) (t : Tensor) (ts : List Tensor) (cs : List (Option Tensor × Bool))
        → (asked t c).0 ≡ true
        → (shown_to t (asked t c).1).0 ≡ true
        → Schedules (shown_to t (asked t c).1).1 ts cs
        → Schedules c (t ∷ ts) ((some t, true) ∷ (some t, false) ∷ cs)
    cancelled :
        (c : Capture F) (t : Tensor) (dropped ts : List Tensor) (cs : List (Option Tensor × Bool))
        → (asked t c).0 ≡ true
        → (shown_to t (asked t c).1).0 ≡ false
        → Schedules (shown_to t (asked t c).1).1 ts cs
        → Schedules c (t ∷ (dropped ++ ts)) ((some t, true) ∷ (some t, false) ∷ cs)

unfoldable pub residual_of : List ℕ → Tensor → Option ℕ → List (ℕ × Tensor) → List (ℕ × Tensor)
residual_of config t none rest = rest
residual_of config t (some l) rest = if contains config l then (l, t) ∷ rest else rest

-- the nodes that bear the name of a configured layer, with the layer
unfoldable pub residuals : List ℕ → List Tensor → List (ℕ × Tensor)
residuals config [] = []
residuals config (t ∷ ts) = residual_of config t (layer_from_name t.name) (residuals config ts)

-- The tensor is not the residual of a configured layer.
abbrev pub Other : List ℕ → Tensor → Type 0
Other config t =
    (layer_from_name t.name ≡ none)
    ⊎ ((l : ℕ) × (layer_from_name t.name ≡ some l) × (contains config l ≡ false))

pub residual-cases :
    (config : List ℕ) (t : Tensor) (ts : List Tensor)
    → Other config t × (residuals config (t ∷ ts) ≡ residuals config ts)
      ⊎ ((l : ℕ) × (layer_from_name t.name ≡ some l)
          × (contains config l ≡ true)
          × (residuals config (t ∷ ts) ≡ (l, t) ∷ residuals config ts))
unfolding residuals residual_of
residual-cases config t ts = elim (Option-cases (layer_from_name t.name)) [
  | inl e ↦ inl (inl e, rw e refl)
  | inr (l, e) ↦ elim (Bool-cases (contains config l)) [
    | inl h ↦ inr (l, e, h, rw (e, h) refl)
    | inr h ↦ inl (inr (l, e, h), rw (e, h) refl)
  ]
]

module _ {F : Type 0} (native : Native F) where
  update_slot-none :
      (l : ℕ) (f : Slot F → Slot F × Option HiddenStateCaptureError) (ss : List (Slot F))
      → contains (layers_of ss) l ≡ false
      → update_slot l f ss ≡ none
  unfolding update_slot contains
  update_slot-none l f [] h = refl
  update_slot-none l f (s ∷ ss) h =
      let missed : (s.snapshot.layer == l) ≡ false =
        ground (arith, h, ==_iff s.snapshot.layer l, ==_iff l s.snapshot.layer) in
      let later : contains (layers_of ss) l ≡ false = ground (arith, h) in
      ground (arith, missed, update_slot-none l f ss later)

  pub unwanted_answer :
      (c : Capture F) (t : Tensor) (ss : List (Slot F))
      → Other (layers_of ss) t
      → asked native t (holding c ss) ≡ (false, holding c ss)
  unfolding callback observe observe_layer observe_slot
  unwanted_answer c t ss (inl name) = ground (arith, name)
  unwanted_answer c t ss (inr (l, name, h)) =
      ground
        (arith, name, update_slot-none l (read_slot native t l c.state.rows c.state.outputs) ss h)

  pub asked_residual :
      (c : Capture F) (l : ℕ) (t : Tensor) (ss ss' : List (Slot F))
      → c.poisoned ≡ false
      → c.state.active ≡ true
      → layer_from_name t.name ≡ some l
      → update_slot l (read_slot native t l c.state.rows c.state.outputs) ss ≡ some (ss', none)
      → asked native t (holding c ss) ≡ (true, holding c ss)
  unfolding callback observe observe_layer observe_slot
  asked_residual c l t ss ss' healthy active name run = ground (arith, healthy, active, name, run)

  pub shown_residual :
      (c : Capture F) (l : ℕ) (t : Tensor) (ss ss' : List (Slot F))
      → c.poisoned ≡ false
      → c.state.active ≡ true
      → layer_from_name t.name ≡ some l
      → update_slot l (read_slot native t l c.state.rows c.state.outputs) ss ≡ some (ss', none)
      → shown_to native t (holding c ss) ≡ (true, holding c ss')
  unfolding callback observe observe_layer observe_slot
  shown_residual c l t ss ss' healthy active name run = ground (arith, healthy, active, name, run)
