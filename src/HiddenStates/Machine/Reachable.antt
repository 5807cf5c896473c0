-- ===== src/HiddenStates/Machine/Reachable.antt =====
-- Every history of a capture: the calls of its owner and of the scheduler, in any order.
use mathlib.Core.Path.{subst}
use llama_cpp_rs.Prelude.{ℕ, ◌≡◌, Bool, Option, List, map, All, ℤ, arith}
use llama_cpp_rs.Prelude.Run.{ok}
use llama_cpp_rs.Prelude.Result
use llama_cpp_rs.Batch.{LlamaBatch}
use llama_cpp_rs.HiddenStates.{Capture, Reserve, LayerHiddenState, new}
use llama_cpp_rs.HiddenStates.Row.{Tensor}
use llama_cpp_rs.HiddenStates.Machine.{
  Native, begin, finish, unsupported, set_enabled, take, callback, panicked,
}
use llama_cpp_rs.HiddenStates.Machine.Slots.{IsExact}
use llama_cpp_rs.HiddenStates.Machine.Soundness.{
  IsSound, begin-IsSound, finish-IsSound, unsupported-IsSound, set_enabled-IsSound,
  callback-IsSound,
}
use llama_cpp_rs.HiddenStates.Machine.Taking.{IsWhole, take-IsWhole, take-IsSound}
use llama_cpp_rs.HiddenStates.Construction.{new_inv}

module _ {F : Type 0} (native : Native F) where
  pub data Step : Capture F → Capture F → Type 0 where
    begun : {c c' : Capture F} (batch : LlamaBatch) (n : ℕ) → begin batch n c ≡ ok tt c' → Step c c'
    called :
        {c c' : Capture F} (t : Option Tensor) (ask : Bool)
        → (callback native t ask c).1 ≡ c'
        → Step c c'
    died : {c c' : Capture F} (ask : Bool) → (panicked ask c).1 ≡ c' → Step c c'
    finished : {c c' : Capture F} (success : Bool) → finish success c ≡ c' → Step c c'
    refused : {c c' : Capture F} → unsupported c ≡ c' → Step c c'
    enabled : {c c' : Capture F} (on : Bool) → set_enabled on c ≡ ok tt c' → Step c c'
    taken :
        {c c' : Capture F} (reserve : Reserve) (copies : List (LayerHiddenState F))
        → take reserve c ≡ ok copies c'
        → Step c c'

  pub data Reach (c : Capture F) : Capture F → Type 0 where
    here : Reach c c
    next : {d d' : Capture F} → Reach c d → Step d d' → Reach c d'

  module _ (layers : List ℕ) (width : ℕ) (exact : IsExact native) where
    Step-IsSound :
        {c c' : Capture F}
        → Step c c'
        → IsSound native layers width c.state
        → IsSound native layers width c'.state
    unfolding panicked
    Step-IsSound {c} (begun batch n e) h = rw e at (begin-IsSound native layers width batch n c h)
    Step-IsSound {c} (called t ask e) h =
        rw e at (callback-IsSound native layers width exact t ask c h)
    Step-IsSound {c} (died ask e) h =
        subst (λ (d : Capture F). IsSound native layers width d.state) e h
    Step-IsSound {c} (finished success e) h =
        rw e at (finish-IsSound native layers width success c h)
    Step-IsSound {c} (refused e) h = rw e at (unsupported-IsSound native layers width c h)
    Step-IsSound {c} (enabled on e) h = rw e at (set_enabled-IsSound native layers width on c h)
    Step-IsSound {c} {c'} (taken reserve copies e) h =
        take-IsSound native width layers reserve c copies c' h e

    pub Reach-IsSound :
        {c c' : Capture F}
        → IsSound native layers width c.state
        → Reach c c'
        → IsSound native layers width c'.state
    Reach-IsSound h here = h
    Reach-IsSound h (next r s) = Step-IsSound s (Reach-IsSound h r)

  -- Where the backend reads as many values as it is asked for: after any history of a capture that was
  -- constructed for some layers, a successful `take` returns one vector for each of them, in the
  -- configured order: finite values, as many as the model is wide, that the backend read from a tensor
  -- with the name of the layer, at the offset that `row_offset` gives for it.
  pub take-Reach :
      (zero : F) (reserve again : Reserve) (config : List ℕ) (width limit : ℕ) (c c' d : Capture F)
      (copies : List (LayerHiddenState F))
      → IsExact native
      → new zero reserve config (ℤ.pos width) limit ≡ Result.ok c
      → Reach c c'
      → take again c' ≡ ok copies d
      → (map (λ v. v.layer) copies ≡ config) × All (IsWhole native width) copies
  take-Reach zero reserve again config width limit c c' d copies exact made r t =
      let (w, is, selection, sound) =
        new_inv native zero reserve config (ℤ.pos width) limit c made in
      let same : w ≡ width = ground arith in
      take-IsWhole native width config again c' copies d
        (Reach-IsSound config width exact (rw same at sound) r) t
