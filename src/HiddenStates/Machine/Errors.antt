-- ===== src/HiddenStates/Machine/Errors.antt =====
-- Errors of a capture: the first one of an evaluation stays, and `take` reports it.
use llama_cpp_rs.Prelude.{
  ℕ, ◌≡◌, refl, Bool, true, false, Option, none, some, List, [], ◌∷◌, arith, if◌then◌else◌,
}
use llama_cpp_rs.Prelude.Run.{err}
use llama_cpp_rs.HiddenStates.{
  HiddenStateCaptureError, evaluation_failed, missing_layer, callback_failed, State, Capture,
  Reserve,
}
use llama_cpp_rs.HiddenStates.Row.{Tensor}
use llama_cpp_rs.HiddenStates.Machine.{
  Native, calls, finish, finish_error, take, callback, panicked, first_unseen,
}

module _ {F : Type 0} (native : Native F) where
  callback_error :
      (t : Option Tensor) (ask : Bool) (c : Capture F) (e : HiddenStateCaptureError)
      → c.state.error ≡ some e
      → (callback native t ask c).1 ≡ c
  unfolding callback
  callback_error t ask c e h = ground arith

  callback_poisoned :
      (t : Option Tensor) (ask : Bool) (c : Capture F)
      → c.poisoned ≡ true
      → (callback native t ask c).1 ≡ c
  unfolding callback
  callback_poisoned t ask c h = ground arith

  calls_poisoned :
      (ts : List (Option Tensor × Bool)) (c : Capture F) → c.poisoned ≡ true → calls native ts c ≡ c
  unfolding calls
  calls_poisoned [] c h = refl
  calls_poisoned ((t, ask) ∷ ts) c h = rw (callback_poisoned t ask c h) (calls_poisoned ts c h)

  finish_error-some :
      (success : Bool) (s : State F) (e : HiddenStateCaptureError)
      → s.error ≡ some e
      → finish_error success s ≡ some (if success then e else evaluation_failed)
  unfolding finish_error
  finish_error-some true s e h = ground arith
  finish_error-some false s e h = refl

  abbrev ended : Bool → Capture F → Capture F
  ended success c = record c {
    state = record c.state {
      active = false;
      ready = true;
      error = finish_error success (record c.state { active = false });
    };
  }

  finish_open :
      (success : Bool) (c : Capture F)
      → c.poisoned ≡ false
      → c.state.enabled ≡ true
      → finish success c ≡ ended success c
  unfolding finish
  finish_open success c p on = ground arith

  pub take_of_error :
      (reserve : Reserve) (c : Capture F) (e : HiddenStateCaptureError)
      → c.poisoned ≡ false
      → c.state.ready ≡ true
      → c.state.error ≡ some e
      → take reserve c ≡ err e c
  unfolding take
  take_of_error reserve c e p r h = ground arith

  pub calls_error :
      (ts : List (Option Tensor × Bool)) (c : Capture F) (e : HiddenStateCaptureError)
      → c.state.error ≡ some e
      → calls native ts c ≡ c
  unfolding calls
  calls_error [] c e h = refl
  calls_error ((t, ask) ∷ ts) c e h = rw (callback_error t ask c e h) (calls_error ts c e h)

  -- Once an evaluation of a healthy enabled capture has recorded an error, whatever callbacks follow,
  -- `take` returns this error after the evaluation, or `EvaluationFailed` if the evaluation itself
  -- failed; the callbacks have changed nothing.
  pub take_first_error :
      (ts : List (Option Tensor × Bool)) (c : Capture F) (e : HiddenStateCaptureError)
      (success : Bool) (reserve : Reserve)
      → c.poisoned ≡ false
      → c.state.enabled ≡ true
      → c.state.error ≡ some e
      → take reserve (finish success (calls native ts c))
        ≡ err (if success then e else evaluation_failed) (finish success c)
  take_first_error ts c e success reserve p on h =
      rw (calls_error ts c e h, finish_open success c p on)
        (take_of_error reserve (ended success c) _ p refl
          (finish_error-some success (record c.state { active = false }) e h))

  -- After an evaluation of a healthy enabled capture that succeeded without a recorded error but saw
  -- no residual of some layer, `take` returns `MissingLayer` for the first such layer.
  take_missing :
      (c : Capture F) (layer : ℕ) (reserve : Reserve)
      → c.poisoned ≡ false
      → c.state.enabled ≡ true
      → c.state.error ≡ none
      → first_unseen c.state.slots ≡ some layer
      → take reserve (finish true c) ≡ err (missing_layer layer) (finish true c)
  unfolding take finish finish_error
  take_missing c layer reserve p on clean h = ground arith

  -- After a panic in a callback, whatever callbacks follow, the end of the evaluation and `take` change
  -- nothing any more, and `take` returns `CallbackFailed`.
  take-panicked :
      (ts : List (Option Tensor × Bool)) (ask success : Bool) (c : Capture F) (reserve : Reserve)
      → take reserve (finish success (calls native ts (panicked ask c).1))
        ≡ err callback_failed (panicked ask c).1
  unfolding take finish panicked
  take-panicked ts ask success c reserve =
      rw (calls_poisoned ts (record c { poisoned = true }) refl)
