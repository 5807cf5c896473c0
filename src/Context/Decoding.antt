-- ===== src/Context/Decoding.antt =====
-- `decode` and `encode`: what they return, and what they leave for the readouts.
use mathlib.Core.Path.{subst}
use llama_cpp_rs.Prelude.{
  ℕ, ◌≡◌, ◌≢◌, refl, sym, Bool, true, false, Option, none, some, arith, if◌then◌else◌, ℤ, int_eqb,
  int_eqb_iff, Bool-cases, Option-cases, inl, inr, if_rule, List,
}
use llama_cpp_rs.Prelude.Run.{Run, ok, err, panic, fault}
use llama_cpp_rs.Batch.{LlamaBatch}
use llama_cpp_rs.HiddenStates.{
  HiddenStateCaptureError, unsupported_batch, evaluation_failed, Capture, Reserve, State,
}
use llama_cpp_rs.Batch.View.{Entry, Shows}
use llama_cpp_rs.HiddenStates.Shape.{batch_shape}
use llama_cpp_rs.HiddenStates.Shape.Returns.{Returns, batch_shape-Returns}
use llama_cpp_rs.HiddenStates.Machine.{
  Native, Act, calls, begin, begin_shape, reset, finish, unsupported,
}
use llama_cpp_rs.HiddenStates.Machine.Errors.{take_first_error, calls_error, take_of_error}
use llama_cpp_rs.Context.{
  LlamaContext, DecodeError, decode_error, Evaluation, Decoding, resume, with_capture, evaluated,
  settle, decode, refused, encode, on_capture, take_hidden_states,
}

-- The state that a call leaves when it returns.
abbrev pub left : {S E A : Type 0} → Run S E A → Option S
left (ok a s) = some s
left (err e s) = some s
left panic = none
left fault = none

-- What `decode` promises of the state that it leaves, for the code that llama.cpp returns.
abbrev pub Decoded :
    {F : Type 0}
    → ℤ
    → LlamaBatch
    → LlamaContext F
    → Run (LlamaContext F) DecodeError (Unit {0})
    → Type 0
Decoded code batch c (ok a c') =
    (code ≡ ℤ.pos 0) × (c'.initialized_logits ≡ batch.initialized_logits)
Decoded code batch c (err e c') =
    (code ≢ ℤ.pos 0) × (e ≡ decode_error code) × (c'.initialized_logits ≡ c.initialized_logits)
Decoded code batch c panic = ⊥
Decoded code batch c fault = ⊥

with_capture_rule :
    {F : Type 0} (P : Decoding F → Type 0) (f : Capture F → Act F (Unit {0})) (c : LlamaContext F)
    (k : LlamaContext F → Decoding F)
    → ((capture : Capture F) → Returns (f capture))
    → ((o : Option (Capture F)) → P (k (record c { hidden_state_capture = o })))
    → P (with_capture f c k)
unfolding with_capture resume
with_capture_rule {F} P f c k h r = elim (Option-cases c.hidden_state_capture) [
  | inl e ↦
      subst
        (λ (o : Option (Capture F)).
          P (elim o [ none ↦ k c | some capture ↦ resume c k (f capture) ]))
        (sym e) (r c.hidden_state_capture)
  | inr (a, e) ↦
      subst
        (λ (o : Option (Capture F)).
          P (elim o [ none ↦ k c | some capture ↦ resume c k (f capture) ]))
        (sym e) (resumed (f a) (h a))
]
  where
    resumed : (s : Act F (Unit {0})) → Returns s → P (resume c k s)
    resumed (ok a d) h = r (some d)
    resumed (err x d) h = r (some d)
    resumed panic h = elim h [ ]
    resumed fault h = elim h [ ]

module _ {F : Type 0} (native : Native F) (e : Evaluation) (batch : LlamaBatch) where
  settle-Decoded :
      (c c' : LlamaContext F)
      → c'.initialized_logits ≡ c.initialized_logits
      → Decoded e.code batch c (settle e.code batch c')
  unfolding settle
  settle-Decoded c c' same = elim (Bool-cases (int_eqb e.code (ℤ.pos 0))) [
    | inl zero ↦ rw (zero, settle) ((int_eqb_iff e.code (ℤ.pos 0)).0 zero, refl)
    | inr code ↦ rw (code, settle) ((λ p. ground (arith, int_eqb_iff e.code (ℤ.pos 0))), refl, same)
  ]

  begin_shape-Returns :
      (s : State F) (c : Capture F) (r : Run (Unit {0}) HiddenStateCaptureError (ℕ × ℕ))
      → Returns r
      → Returns (begin_shape s c r)
  unfolding begin_shape
  begin_shape-Returns s c (ok shape _) h = tt
  begin_shape-Returns s c (err x _) h = tt
  begin_shape-Returns s c panic h = h
  begin_shape-Returns s c fault h = h

  begin-Returns :
      (n : ℕ) → Returns (batch_shape batch n) → (c : Capture F) → Returns (begin batch n c)
  unfolding begin
  begin-Returns n h c =
      if_rule Returns c.poisoned _ _ (λ p. tt)
        λ p.
          if_rule Returns c.state.enabled _ _
            (λ on. begin_shape-Returns (reset c.state) c (batch_shape batch n) h) λ off. tt

  -- Decoding an owned batch returns, with a capture or without. It succeeds exactly when llama.cpp
  -- returned 0, and then it has taken over the marks of the batch; otherwise its error is that of the
  -- code, and the marks are those before it.
  pub decode-Decoded :
      {cap width : ℕ} (es : List Entry) (c : LlamaContext F)
      → Shows cap width batch es
      → Decoded e.code batch c (decode native e batch c)
  unfolding decode
  decode-Decoded {cap = cap} {width = width} es c shows =
      with_capture_rule (Decoded e.code batch c) (begin batch c.n_ubatch) c _
        (begin-Returns c.n_ubatch (batch_shape-Returns cap width batch es c.n_ubatch shows))
        λ o. settle-Decoded c _ refl

  abbrev is_zero : Bool
  is_zero = int_eqb e.code (ℤ.pos 0)

  abbrev begun : Capture F → HiddenStateCaptureError → Capture F
  begun capture x = record capture { state = record (reset capture.state) { error = some x } }

  begin_err :
      (n : ℕ) (capture : Capture F) (x : HiddenStateCaptureError)
      → capture.poisoned ≡ false
      → capture.state.enabled ≡ true
      → batch_shape batch n ≡ err x tt
      → begin batch n capture ≡ ok tt (begun capture x)
  unfolding begin begin_shape
  begin_err n capture x healthy on shape = ground (arith, healthy, on, shape)

  abbrev settled : LlamaContext F → Capture F → LlamaContext F
  settled c capture = record c {
    initialized_logits = if is_zero then batch.initialized_logits else c.initialized_logits;
    hidden_state_capture = some capture;
  }

  left-decode :
      (c : LlamaContext F) (capture begun' : Capture F)
      → c.hidden_state_capture ≡ some capture
      → begin batch c.n_ubatch capture ≡ ok tt begun'
      → left (decode native e batch c)
        ≡ some (settled c (finish is_zero (calls native e.scheduled begun')))
  unfolding decode with_capture resume evaluated settle
  left-decode c capture begun' installed ran = ground (arith, installed, ran)

  -- A batch that a healthy enabled capture cannot identify is decoded all the same, and the readout
  -- after it is the reason of the refusal, or `EvaluationFailed` if the evaluation itself failed.
  pub decode_refused :
      (c : LlamaContext F) (capture : Capture F) (x : HiddenStateCaptureError) (reserve : Reserve)
      → c.hidden_state_capture ≡ some capture
      → capture.poisoned ≡ false
      → capture.state.enabled ≡ true
      → batch_shape batch c.n_ubatch ≡ err x tt
      → (c' : LlamaContext F) × (left (decode native e batch c) ≡ some c')
        × (take_hidden_states reserve c' ≡ err (if is_zero then x else evaluation_failed) c')
  unfolding take_hidden_states on_capture
  decode_refused c capture x reserve installed healthy on shape =
      let ran = begin_err c.n_ubatch capture x healthy on shape in
      let same = calls_error native e.scheduled (begun capture x) x refl in
      (
        settled c (finish is_zero (calls native e.scheduled (begun capture x))),
        left-decode c capture (begun capture x) installed ran,
        ground (
          arith,
          same,
          take_first_error native e.scheduled (begun capture x) x is_zero reserve healthy on refl,
        ),
      )

  abbrev barred : Capture F → Capture F
  barred capture = record capture {
    state = record capture.state {
      active = false;
      ready = capture.state.enabled;
      error = some unsupported_batch;
    };
  }

  unsupported_lem :
      (capture : Capture F) → capture.poisoned ≡ false → unsupported capture ≡ barred capture
  unfolding unsupported
  unsupported_lem capture healthy = ground arith

  -- The readout of a healthy enabled capture after `encode` is `UnsupportedBatch`, whatever the
  -- scheduler calls and whatever llama.cpp returns.
  encode_refused :
      (c : LlamaContext F) (capture : Capture F) (reserve : Reserve)
      → c.hidden_state_capture ≡ some capture
      → capture.poisoned ≡ false
      → capture.state.enabled ≡ true
      → (c' : LlamaContext F) × (left (encode native e batch c) ≡ some c')
        × (take_hidden_states reserve c' ≡ err unsupported_batch c')
  unfolding take_hidden_states on_capture encode refused
  encode_refused c capture reserve installed healthy on =
      let refusal = unsupported_lem capture healthy in
      let same = calls_error native e.scheduled (barred capture) unsupported_batch refl in
      (
        settled c (barred capture),
        ground (arith, installed, refusal, same),
        ground (
          arith,
          take_of_error native reserve (barred capture) unsupported_batch healthy on refl,
        ),
      )
