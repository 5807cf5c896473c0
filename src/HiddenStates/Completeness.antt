-- ===== src/HiddenStates/Completeness.antt =====
-- The evaluations of a graph that has every configured layer once, and what `take` makes of them.
use mathlib.Core.Path.{subst}
use llama_cpp_rs.Prelude.{
  ℕ, suc, Bool, ◌≡◌, refl, sym, ap, ◌∙◌, inr, true, false, none, Option, List, [], ◌∷◌, map, length,
  All, arith, ℤ,
}
use llama_cpp_rs.Prelude.Run.{ok}
use llama_cpp_rs.Prelude.Result
use llama_cpp_rs.Batch.{LlamaBatch}
use llama_cpp_rs.HiddenStates.{Slot, Capture, Reserve, LayerHiddenState, contains, new}
use llama_cpp_rs.HiddenStates.Shape.{batch_shape}
use llama_cpp_rs.HiddenStates.Row.{Tensor}
use llama_cpp_rs.HiddenStates.Machine.{
  Native, begin, begin_shape, clear_seen, first_unseen, finish_error, finish, copy_slots, take,
  calls,
}
use llama_cpp_rs.HiddenStates.Machine.Slots.{
  layers_of, snapshots_of, AllSeen, IsExact, IsGood, layers_of-clear_seen,
}
use llama_cpp_rs.HiddenStates.Machine.Reachable.{Reach, Reach-IsSound}
use llama_cpp_rs.HiddenStates.Construction.{IsDistinct, new_inv}
use llama_cpp_rs.HiddenStates.Marking.{IsReadable, Marked, after, contains-after, holding}
use llama_cpp_rs.HiddenStates.Schedule.{Schedules, residuals}
use llama_cpp_rs.HiddenStates.Schedule.Marks.{schedule_marks}

module _ {F : Type 0} (native : Native F) (exact : IsExact native) (width rows outputs : ℕ) where
  clear_seen-Marked :
      (ss : List (Slot F)) → All (IsGood native width) ss → All (Marked width []) (clear_seen ss)
  unfolding clear_seen contains
  clear_seen-Marked [] h = tt
  clear_seen-Marked (s ∷ ss) (g, h) = ((refl, g.wide), clear_seen-Marked ss h)

  AllSeen-of_Marked :
      (seen : List ℕ) (ss : List (Slot F))
      → All (Marked width seen) ss
      → All (λ l. contains seen l ≡ true) (layers_of ss)
      → AllSeen ss
  AllSeen-of_Marked seen [] m h = tt
  AllSeen-of_Marked seen (s ∷ ss) (m, ms) (h, hs) = (m.0 ∙ h, AllSeen-of_Marked seen ss ms hs)

  first_unseen-of_AllSeen : (ss : List (Slot F)) → AllSeen ss → first_unseen ss ≡ none
  unfolding first_unseen
  first_unseen-of_AllSeen [] h = refl
  first_unseen-of_AllSeen (s ∷ ss) (e, h) = ground (arith, e, first_unseen-of_AllSeen ss h)

  copy_slots-granted :
      (again : Reserve)
      → ((k m : ℕ) → again k m ≡ true)
      → (k : ℕ) (ss : List (Slot F)) → copy_slots again k ss ≡ Result.ok (snapshots_of ss)
  unfolding copy_slots
  copy_slots-granted again grants k [] = refl
  copy_slots-granted again grants k (s ∷ ss) =
      ground
        (arith, grants k (length s.snapshot.values), copy_slots-granted again grants (suc k) ss)

  take-holding :
      (again : Reserve) (c : Capture F) (ss : List (Slot F))
      → ((k m : ℕ) → again k m ≡ true)
      → c.poisoned ≡ false
      → c.state.enabled ≡ true
      → AllSeen ss
      → (d : Capture F) × (take again (finish true (holding c ss)) ≡ ok (snapshots_of ss) d)
  unfolding take finish finish_error
  take-holding again c ss grants healthy on seen = (
    record c { state = record c.state { slots = ss; active = false; ready = false; error = none } },
    ground (
      arith,
      healthy,
      on,
      grants 0 (length ss),
      first_unseen-of_AllSeen ss seen,
      copy_slots-granted again grants 1 ss,
    ),
  )

  layers_of-snapshots_of :
      (ss : List (Slot F)) → map (λ v. v.layer) (snapshots_of ss) ≡ layers_of ss
  layers_of-snapshots_of [] = refl
  layers_of-snapshots_of (s ∷ ss) = ap (λ ls. s.snapshot.layer ∷ ls) (layers_of-snapshots_of ss)

  covers :
      (ts : List (ℕ × Tensor)) (config : List ℕ)
      → All (λ l. contains (map (λ p. p.0) ts) l ≡ true) config
      → All (λ l. contains (after [] ts) l ≡ true) config
  covers ts [] h = tt
  covers ts (l ∷ ls) (e, h) = (contains-after [] ts l (inr e), covers ts ls h)

  none_seen : (ts : List (ℕ × Tensor)) → All (λ p. contains [] p.0 ≡ false) ts
  unfolding contains
  none_seen [] = tt
  none_seen (p ∷ ts) = (refl, none_seen ts)

  abbrev begun : Capture F → Capture F
  begun c = record c {
    state = record c.state {
      slots = clear_seen c.state.slots;
      rows = rows;
      outputs = outputs;
      active = true;
      ready = false;
      error = none;
    };
  }

  begin_ok :
      (batch : LlamaBatch) (n : ℕ) (c : Capture F)
      → c.poisoned ≡ false
      → c.state.enabled ≡ true
      → batch_shape batch n ≡ ok (rows, outputs) tt
      → begin batch n c ≡ ok tt (begun c)
  unfolding begin begin_shape
  begin_ok batch n c healthy on shape = ground (arith, healthy, on, shape)

  begun_lem :
      (batch : LlamaBatch) (n : ℕ) (c c'' : Capture F)
      → c.poisoned ≡ false
      → c.state.enabled ≡ true
      → batch_shape batch n ≡ ok (rows, outputs) tt
      → begin batch n c ≡ ok tt c''
      → c'' ≡ begun c
  begun_lem batch n c c'' healthy on shape start =
      let same = begin_ok batch n c healthy on shape in ground (arith, same, start)

  module _ (zero : F) (reserve again : Reserve) (config : List ℕ) (limit : ℕ)
      (c c' c'' : Capture F) where
    -- Where the backend reads as many values as it is asked for, and the allocator grants what it is asked
    -- for: after any history of a constructed capture that left it healthy and enabled, begin a batch of an
    -- accepted shape, and let the scheduler make the calls of `Schedules` for the nodes of a
    -- graph, asking for every node before it shows those that are wanted. If the nodes named for
    -- configured layers are readable, are of distinct layers and cover every configured layer, in any
    -- order and among any other nodes, and the evaluation succeeds, `take` returns a
    -- snapshot of each configured layer, in their order.
    pub take_complete :
        (batch : LlamaBatch) (n : ℕ) (nodes : List Tensor) (cs : List (Option Tensor × Bool))
        → new zero reserve config (ℤ.pos width) limit ≡ Result.ok c
        → Reach native c c'
        → c'.poisoned ≡ false
        → c'.state.enabled ≡ true
        → batch_shape batch n ≡ ok (rows, outputs) tt
        → begin batch n c' ≡ ok tt c''
        → Schedules native c'' nodes cs
        → All (λ p. IsReadable native width rows outputs p.0 p.1) (residuals config nodes)
        → IsDistinct (map (λ p. p.0) (residuals config nodes))
        → All (λ l. contains (map (λ p. p.0) (residuals config nodes)) l ≡ true) config
        → ((k m : ℕ) → again k m ≡ true)
        → (copies : List (LayerHiddenState F)) × (d : Capture F) × (take again
              (finish true (calls native cs c''))
            ≡ ok copies d)
          × (map (λ v. v.layer) copies ≡ config)
    take_complete batch n nodes cs made history healthy on shape start schedule readable once cover
          grants =
        let (w, is, selection, sound) =
          new_inv native zero reserve config (ℤ.pos width) limit c made in
        let same : w ≡ width = ground arith in
        let kept = Reach-IsSound native config width exact (rw same at sound) history in
        let layers = layers_of-clear_seen c'.state.slots ∙ kept.configured in
        let rs = residuals config nodes in
        let (ss, run, layers', marked) =
          schedule_marks native exact width rows outputs (begun c') healthy refl refl refl config []
            nodes cs c'' (clear_seen c'.state.slots) schedule
            (begun_lem batch n c' c'' healthy on shape start) layers selection.distinct
            (record { readable = readable; unseen = none_seen rs; once = once })
            (clear_seen-Marked c'.state.slots kept.good) in
        let seen = AllSeen-of_Marked (after [] rs) ss marked (
          subst (All (λ l. contains (after [] rs) l ≡ true)) (sym layers')
            (covers rs config cover)) in
        let (d, taken) = take-holding again (begun c') ss grants healthy on seen in
        (
          snapshots_of ss,
          d,
          ap (λ e. take again (finish true e)) run ∙ taken,
          layers_of-snapshots_of ss ∙ layers',
        )
