-- ===== src/HiddenStates/Shape/Accepts.antt =====
-- The loop of `batch_shape`, and the batches that it accepts.
use llama_cpp_rs.Prelude.{
  ℕ, suc, ◌+◌, ◌-◌, ◌≡◌, refl, sym, ◌∙◌, true, ◌||◌, List, [], ◌∷◌, ltb, ◌==◌, length, arith,
  Bool-cases, inl, inr,
}
use llama_cpp_rs.Prelude.Run.{ok}
use llama_cpp_rs.Batch.{LlamaBatch}
use llama_cpp_rs.Batch.View.{Entry, Shows, outputs}
use llama_cpp_rs.HiddenStates.Shape.{Seen, unseen, batch_shape, of_flag}
use llama_cpp_rs.HiddenStates.Shape.Entries.{
  entry_step, scan_entries, entries_shape, batch_shape-entries,
}
use llama_cpp_rs.HiddenStates.Shape.Unambiguous.{
  IsOneSequence, IsIncreasing, HasLastOutput, IsUnambiguous, next_seen, then_scan_inv,
  entry_step_inv, entry_step_ok,
}

length-outputs_cons :
    (i : ℕ) (e : Entry) (es : List Entry)
    → length (outputs i (e ∷ es)) ≡ of_flag e.logits + length (outputs (suc i) es)
length-outputs_cons i e es = ground arith

-- What a completed scan from the state `s` shows of the entries.
record Scanned (i : ℕ) (es : List Entry) (s s' : Seen) : Type 0 where
  one_sequence : IsOneSequence s.sequence es
  increasing : IsIncreasing s.previous_pos es
  last_output : HasLastOutput es
  counted : s'.outputs ≡ s.outputs + length (outputs i es)

scan_entries_inv :
    (rows i : ℕ) (es : List Entry) (s s' : Seen)
    → rows ≡ i + length es
    → scan_entries rows i es s ≡ ok s' tt
    → Scanned i es s s'
unfolding scan_entries
scan_entries_inv rows i [] s s' r h = record {
  one_sequence = tt;
  increasing = tt;
  last_output = tt;
  counted = ground arith;
}
scan_entries_inv rows i (e ∷ es) s s' r h =
    let (s₁, first, rest) = then_scan_inv (entry_step rows i e s) _ h in
    let (id, one, agrees, later, last, is) = entry_step_inv rows i e s s₁ first in
    let later_ones =
      scan_entries_inv rows (suc i) es (next_seen s id e) s' (omega arith) (rw is at rest) in
    record {
      one_sequence = (id, one, agrees, later_ones.one_sequence);
      increasing = (later, later_ones.increasing);
      last_output = end es (λ p. last (omega arith)) later_ones.last_output;
      counted = omega (arith, later_ones.counted, length-outputs_cons i e es);
    }
  where
    end :
        (fs : List Entry)
        → (length fs ≡ 0 → e.logits ≡ true)
        → HasLastOutput fs
        → HasLastOutput (e ∷ fs)
    end [] l k = l refl
    end (f ∷ fs) l k = k

scan_entries_ok :
    (rows i : ℕ) (es : List Entry) (s : Seen)
    → rows ≡ i + length es
    → IsOneSequence s.sequence es
    → IsIncreasing s.previous_pos es
    → HasLastOutput es
    → (s' : Seen) × (scan_entries rows i es s ≡ ok s' tt)
      × (s'.outputs ≡ s.outputs + length (outputs i es))
unfolding scan_entries
scan_entries_ok rows i [] s r one increasing last = (s, refl, omega arith)
scan_entries_ok rows i (e ∷ es) s r (id, ids, agrees, one) (later, increasing) last =
    let (s', rest, counted) =
      scan_entries_ok rows (suc i) es (next_seen s id e) (omega arith) one increasing
        (tail es last) in
    (
      s',
      rw
          (entry_step_ok rows i e s id ids agrees later (
            head es last
              (λ (k : ℕ) (p : i ≡ rows - 1) (q : length es ≡ suc k). absurd (omega arith))))
          rest,
      omega (arith, counted, length-outputs_cons i e es),
    )
  where
    tail : (fs : List Entry) → HasLastOutput (e ∷ fs) → HasLastOutput fs
    tail [] h = tt
    tail (f ∷ fs) h = h

    head :
        (fs : List Entry)
        → HasLastOutput (e ∷ fs)
        → ((k : ℕ) → i ≡ rows - 1 → length fs ≡ suc k → e.logits ≡ true)
        → i ≡ rows - 1
        → e.logits ≡ true
    head [] h more p = h
    head (f ∷ fs) h more p = more (length fs) p refl

module _ (size width : ℕ) (b : LlamaBatch) (es : List Entry) (n_ubatch : ℕ)
    (shows : Shows size width b es) where
  entries_shape_ok :
      IsUnambiguous n_ubatch es
      → entries_shape es n_ubatch ≡ ok (length es, length (outputs 0 es)) tt
  unfolding entries_shape
  entries_shape_ok h =
      let (s', ran, counted) =
        scan_entries_ok (length es) 0 es unseen (omega arith) h.one_sequence h.increasing
          h.last_output in
      ground (arith, ran, counted, h.some_token, h.one_microbatch)

  entries_shape_inv :
      (rows outs : ℕ)
      → entries_shape es n_ubatch ≡ ok (rows, outs) tt
      → IsUnambiguous n_ubatch es × (rows ≡ length es) × (outs ≡ length (outputs 0 es))
  unfolding entries_shape
  entries_shape_inv rows outs h = elim (Bool-cases (length es == 0 || ltb n_ubatch (length es))) [
    | inl e ↦ ground arith
    | inr e ↦
        let (s', ran, end) =
          then_scan_inv (scan_entries (length es) 0 es unseen) (λ s. ok (length es, s.outputs) tt)
            (rw e at h) in
        let scanned = scan_entries_inv (length es) 0 es unseen s' (omega arith) ran in
        (
          record {
            some_token = ground arith;
            one_microbatch = ground arith;
            one_sequence = scanned.one_sequence;
            increasing = scanned.increasing;
            last_output = scanned.last_output;
          },
          ground arith,
          ground (arith, scanned.counted),
        )
  ]

  -- An owned batch is accepted if its entries are unambiguous, with their number and that of the
  -- outputs among them as the result.
  pub batch_shape_accepts :
      IsUnambiguous n_ubatch es → batch_shape b n_ubatch ≡ ok (length es, length (outputs 0 es)) tt
  batch_shape_accepts h = batch_shape-entries size width b es n_ubatch shows ∙ entries_shape_ok h

  -- An owned batch is accepted only if its entries are unambiguous: at least one and no more than a
  -- microbatch holds, of one sequence, at increasing positions, the last of them an output. The result
  -- is their number and that of the outputs.
  pub batch_shape_inv :
      (rows outs : ℕ)
      → batch_shape b n_ubatch ≡ ok (rows, outs) tt
      → IsUnambiguous n_ubatch es × (rows ≡ length es) × (outs ≡ length (outputs 0 es))
  batch_shape_inv rows outs h =
      entries_shape_inv rows outs (sym (batch_shape-entries size width b es n_ubatch shows) ∙ h)
