-- ===== src/HiddenStates/Shape/Unambiguous.antt =====
-- The batches of one sequence, with increasing positions and an output for the last token.
use llama_cpp_rs.Prelude.{
  ℕ, ◌+◌, ◌-◌, ◌<◌, ◌≤◌, ◌≡◌, refl, Bool, true, false, Option, none, some, List, [], ◌∷◌, ℤ,
  int_eqb_iff, length, arith,
}
use llama_cpp_rs.Prelude.Run.{ok, err, panic, fault}
use llama_cpp_rs.Batch.View.{Entry}
use llama_cpp_rs.HiddenStates.Shape.{
  Scan, then_scan, Seen, scan_id, scan_at, scan_last, other_sequence, not_after, of_flag,
}
use llama_cpp_rs.HiddenStates.Shape.Entries.{entry_sequence, entry_step}

-- Each entry has one sequence id, the same for all.
abbrev pub Agrees : Option ℤ → ℤ → Type 0
Agrees none id = Unit
Agrees (some previous) id = previous ≡ id

abbrev pub IsOneSequence : Option ℤ → List Entry → Type 0
IsOneSequence sequence [] = Unit
IsOneSequence sequence (e ∷ es) =
    (id : ℤ) × (e.seq_ids ≡ id ∷ []) × Agrees sequence id × IsOneSequence (some id) es

-- Positions are not negative, and each is larger than the one before.
abbrev pub IsLater : Option ℤ → ℤ → Type 0
IsLater previous (ℤ.negsuc n) = ⊥
IsLater none (ℤ.pos n) = Unit
IsLater (some (ℤ.negsuc m)) (ℤ.pos n) = Unit
IsLater (some (ℤ.pos m)) (ℤ.pos n) = m < n

abbrev pub IsIncreasing : Option ℤ → List Entry → Type 0
IsIncreasing previous [] = Unit
IsIncreasing previous (e ∷ es) = IsLater previous e.at × IsIncreasing (some e.at) es

abbrev pub HasLastOutput : List Entry → Type 0
HasLastOutput [] = Unit
HasLastOutput (e ∷ []) = e.logits ≡ true
HasLastOutput (e ∷ f ∷ fs) = HasLastOutput (f ∷ fs)

pub record IsUnambiguous (n_ubatch : ℕ) (es : List Entry) : Type 0 where
  pub some_token : 0 < length es
  pub one_microbatch : length es ≤ n_ubatch
  pub one_sequence : IsOneSequence none es
  pub increasing : IsIncreasing none es
  pub last_output : HasLastOutput es

abbrev pub next_seen : Seen → ℤ → Entry → Seen
next_seen s id e = record {
  sequence = some id;
  previous_pos = some e.at;
  outputs = s.outputs + of_flag e.logits;
}

scan_id_inv :
    (sequence r : Option ℤ) (id : ℤ)
    → scan_id sequence id ≡ ok r tt
    → Agrees sequence id × (r ≡ some id)
unfolding scan_id other_sequence
scan_id_inv none r id h = ground arith
scan_id_inv (some x) r id h = ground (arith, int_eqb_iff x id)

entry_sequence_inv :
    (ids : List ℤ) (sequence r : Option ℤ)
    → entry_sequence ids sequence ≡ ok r tt
    → (id : ℤ) × (ids ≡ id ∷ []) × Agrees sequence id × (r ≡ some id)
entry_sequence_inv [] sequence r h = cc
entry_sequence_inv (id ∷ []) sequence r h =
    let (a, b) = scan_id_inv sequence r id h in (id, refl, a, b)
entry_sequence_inv (id ∷ j ∷ js) sequence r h = cc

scan_at_inv :
    (previous r : Option ℤ) (at : ℤ)
    → scan_at previous at ≡ ok r tt
    → IsLater previous at × (r ≡ some at)
unfolding scan_at not_after
scan_at_inv previous r (ℤ.negsuc n) h = ground arith
scan_at_inv none r (ℤ.pos n) h = ground arith
scan_at_inv (some (ℤ.pos m)) r (ℤ.pos n) h = ground arith
scan_at_inv (some (ℤ.negsuc m)) r (ℤ.pos n) h = ground arith

pub then_scan_inv :
    {A B : Type 0} (m : Scan A) (f : A → Scan B) {b : B}
    → then_scan m f ≡ ok b tt
    → (a : A) × (m ≡ ok a tt) × (f a ≡ ok b tt)
then_scan_inv (ok a s) f h = (a, refl, h)
then_scan_inv (err e s) f h = cc
then_scan_inv panic f h = cc
then_scan_inv fault f h = cc

scan_last_inv :
    (rows i : ℕ) (s s' : Seen) (output : Bool)
    → scan_last rows i s output ≡ ok s' tt
    → (i ≡ rows - 1 → output ≡ true) × (s' ≡ record s { outputs = s.outputs + of_flag output })
unfolding scan_last
scan_last_inv rows i s s' true h = (λ _. refl, ground arith)
scan_last_inv rows i s s' false h = (λ e. ground arith, ground arith)

pub entry_step_inv :
    (rows i : ℕ) (e : Entry) (s s' : Seen)
    → entry_step rows i e s ≡ ok s' tt
    → (id : ℤ) × (e.seq_ids ≡ id ∷ [])
      × Agrees s.sequence id
      × IsLater s.previous_pos e.at
      × (i ≡ rows - 1 → e.logits ≡ true)
      × (s' ≡ next_seen s id e)
entry_step_inv rows i e s s' h =
    let (q, a, h₁) = then_scan_inv (entry_sequence e.seq_ids s.sequence) _ h in
    let (p, b, h₂) = then_scan_inv (scan_at s.previous_pos e.at) _ h₁ in
    let (id, one, agrees, is) = entry_sequence_inv e.seq_ids s.sequence q a in
    let (later, at) = scan_at_inv s.previous_pos p e.at b in
    let (last, end) = scan_last_inv rows i _ s' e.logits h₂ in
    (id, one, agrees, later, last, ground (arith, is, at, end))

scan_id_ok :
    (sequence : Option ℤ) (id : ℤ) → Agrees sequence id → scan_id sequence id ≡ ok (some id) tt
unfolding scan_id other_sequence
scan_id_ok none id h = refl
scan_id_ok (some x) id h = ground (arith, int_eqb_iff x id)

scan_at_ok :
    (previous : Option ℤ) (at : ℤ) → IsLater previous at → scan_at previous at ≡ ok (some at) tt
unfolding scan_at not_after
scan_at_ok previous (ℤ.negsuc n) h = absurd h
scan_at_ok none (ℤ.pos n) h = refl
scan_at_ok (some (ℤ.pos m)) (ℤ.pos n) h = ground arith
scan_at_ok (some (ℤ.negsuc m)) (ℤ.pos n) h = refl

scan_last_ok :
    (rows i : ℕ) (s : Seen) (output : Bool)
    → (i ≡ rows - 1 → output ≡ true)
    → scan_last rows i s output ≡ ok (record s { outputs = s.outputs + of_flag output }) tt
unfolding scan_last
scan_last_ok rows i s true h = ground arith
scan_last_ok rows i s false h = ground arith

pub entry_step_ok :
    (rows i : ℕ) (e : Entry) (s : Seen) (id : ℤ)
    → e.seq_ids ≡ id ∷ []
    → Agrees s.sequence id
    → IsLater s.previous_pos e.at
    → (i ≡ rows - 1 → e.logits ≡ true)
    → entry_step rows i e s ≡ ok (next_seen s id e) tt
entry_step_ok rows i e s id one agrees later last = ground (
  arith,
  one,
  scan_id_ok s.sequence id agrees,
  scan_at_ok s.previous_pos e.at later,
  scan_last_ok rows i (record { sequence = some id; previous_pos = some e.at; outputs = s.outputs })
      e.logits last,
)
