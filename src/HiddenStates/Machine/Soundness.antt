-- ===== src/HiddenStates/Machine/Soundness.antt =====
-- The invariant of the capture, kept by every method and by the callback.
use llama_cpp_rs.Prelude.{
  ℕ, ◌≡◌, refl, ◌∙◌, Bool, true, false, not, ◌||◌, Option, none, some, List, arith, All, if_rule,
}
use llama_cpp_rs.Prelude.Run.{ok, err, panic, fault}
use llama_cpp_rs.Batch.{LlamaBatch}
use llama_cpp_rs.HiddenStates.{HiddenStateCaptureError, Slot, State, Capture}
use llama_cpp_rs.HiddenStates.Shape.{Scan, batch_shape}
use llama_cpp_rs.HiddenStates.Name.{layer_from_name}
use llama_cpp_rs.HiddenStates.Row.{Tensor}
use llama_cpp_rs.HiddenStates.Machine.{
  Native, Act, reset, begin, begin_shape, finish_error, finish, unsupported, set_enabled,
  update_slot, observe_slot, observe_layer, observe, callback, is_some,
}
use llama_cpp_rs.HiddenStates.Machine.Slots.{
  layers_of, AllSeen, IsExact, IsGood, Keeps, layers_of-clear_seen, first_unseen-none,
  clear_seen-IsGood, update_slot-IsGood, read_slot-Keeps,
}

-- What holds of the state of a capture with these layers and this width, under the lock or not.
pub record IsSound {F : Type 0} (native : Native F) (layers : List ℕ) (width : ℕ) (s : State F)
    : Type 0 where
  pub configured : layers_of s.slots ≡ layers
  pub good : All (IsGood native width) s.slots
  pub exclusive : s.active ≡ true → s.ready ≡ false
  pub complete : s.ready ≡ true → s.error ≡ none → AllSeen s.slots

-- `P` holds of the state that a run leaves, if it leaves one.
abbrev pub Leaves : {F A : Type 0} → (State F → Type 0) → Act F A → Type 0
Leaves P (ok a c) = P c.state
Leaves P (err e c) = P c.state
Leaves P panic = Unit
Leaves P fault = Unit

module _ {F : Type 0} (native : Native F) (layers : List ℕ) (width : ℕ) where
  abbrev pub Sound : State F → Type 0
  Sound = IsSound native layers width

  -- A state that shows nothing is sound if its slots are.
  pub unready-IsSound :
      (s : State F)
      → layers_of s.slots ≡ layers
      → All (IsGood native width) s.slots
      → s.ready ≡ false
      → Sound s
  unready-IsSound s l g r = record {
    configured = l;
    good = g;
    exclusive = λ _. r;
    complete = λ p q. cc;
  }

  reset-IsSound :
      (s : State F) (rows outputs : ℕ) (active enabled : Bool)
      (error : Option HiddenStateCaptureError)
      → Sound s
      → Sound (record (reset s) {
        rows = rows;
        outputs = outputs;
        active = active;
        enabled = enabled;
        error = error;
      })
  reset-IsSound s rows outputs active enabled error h =
      unready-IsSound _ (layers_of-clear_seen s.slots ∙ h.configured)
        (clear_seen-IsGood native width s.slots h.good) refl

  begin_shape-IsSound :
      (c : Capture F) (shape : Scan (ℕ × ℕ))
      → Sound c.state
      → Leaves Sound (begin_shape (reset c.state) c shape)
  unfolding begin_shape
  begin_shape-IsSound c (ok shape _) h = reset-IsSound c.state _ _ _ _ _ h
  begin_shape-IsSound c (err e _) h = reset-IsSound c.state _ _ _ _ _ h
  begin_shape-IsSound c panic h = tt
  begin_shape-IsSound c fault h = tt

  pub begin-IsSound :
      (batch : LlamaBatch) (n : ℕ) (c : Capture F) → Sound c.state → Leaves Sound (begin batch n c)
  unfolding begin
  begin-IsSound batch n c h =
      if_rule (Leaves Sound) c.poisoned _ _ (λ _. h)
        λ _.
          if_rule (Leaves Sound) c.state.enabled _ _
            (λ _. begin_shape-IsSound c (batch_shape batch n) h)
            (λ _. reset-IsSound c.state _ _ _ _ _ h)

  pub set_enabled-IsSound :
      (on : Bool) (c : Capture F) → Sound c.state → Leaves Sound (set_enabled on c)
  unfolding set_enabled
  set_enabled-IsSound on c h =
      if_rule (Leaves Sound) c.poisoned _ _ (λ _. h) (λ _. reset-IsSound c.state _ _ _ _ _ h)

  finished : State F → Bool → State F
  finished s success = record s {
    active = false;
    ready = true;
    error = finish_error success (record s { active = false });
  }

  finished-IsSound : (s : State F) (success : Bool) → Sound s → Sound (finished s success)
  unfolding finished finish_error
  finished-IsSound s success h = record {
    configured = h.configured;
    good = h.good;
    exclusive = λ p. cc;
    complete = λ _ q. first_unseen-none s.slots (ground arith);
  }

  pub finish-IsSound :
      (success : Bool) (c : Capture F) → Sound c.state → Sound (finish success c).state
  unfolding finish finished
  finish-IsSound success c h =
      if_rule (λ (d : Capture F). Sound d.state) c.poisoned _ _ (λ _. h)
        λ _.
          if_rule (λ (d : Capture F). Sound d.state) c.state.enabled _ _
            (λ _. finished-IsSound c.state success h)
            λ _. record {
              configured = h.configured;
              good = h.good;
              exclusive = λ p. cc;
              complete = h.complete;
            }

  pub unsupported-IsSound : (c : Capture F) → Sound c.state → Sound (unsupported c).state
  unfolding unsupported
  unsupported-IsSound c h =
      if_rule (λ (d : Capture F). Sound d.state) c.poisoned _ _ (λ _. h)
        λ _. record {
          configured = h.configured;
          good = h.good;
          exclusive = λ p. cc;
          complete = λ p q. cc;
        }

  -- A callback that goes ahead changes slots only, and only of a state that is not ready.
  observe_slot-IsSound :
      (ask : Bool) (c : Capture F) (layer : ℕ)
      (f : Slot F → Slot F × Option HiddenStateCaptureError)
      (o : Option (List (Slot F) × Option HiddenStateCaptureError))
      → Keeps native width layer f
      → update_slot layer f c.state.slots ≡ o
      → c.state.active ≡ true
      → Sound c.state
      → Sound (observe_slot native ask c o).1.state
  unfolding observe_slot
  observe_slot-IsSound ask c layer f none k e a h = h
  observe_slot-IsSound true c layer f (some read) k e a h = h
  observe_slot-IsSound false c layer f (some (slots, error)) k e a h =
      let (same, good) =
        update_slot-IsGood native width layer f c.state.slots slots error k h.good e in
      record {
        configured = same ∙ h.configured;
        good = good;
        exclusive = h.exclusive;
        complete = λ p q. cc (h.exclusive a);
      }

  observe_layer-IsSound :
      IsExact native
      → (t : Tensor) (ask : Bool) (c : Capture F) (o : Option ℕ) → layer_from_name t.name ≡ o
      → c.state.active ≡ true
      → Sound c.state
      → Sound (observe_layer native t ask c o).1.state
  unfolding observe_layer
  observe_layer-IsSound x t ask c none n a h = h
  observe_layer-IsSound x t ask c (some layer) n a h =
      observe_slot-IsSound ask c layer _ _
        (read_slot-Keeps native width x t layer c.state.rows c.state.outputs n) refl a h

  observe-IsSound :
      IsExact native
      → (t : Option Tensor) (ask : Bool) (c : Capture F) → c.state.active ≡ true
      → Sound c.state
      → Sound (observe native t ask c).1.state
  unfolding observe
  observe-IsSound x none ask c a h = record {
    configured = h.configured;
    good = h.good;
    exclusive = h.exclusive;
    complete = λ p q. cc;
  }
  observe-IsSound x (some t) ask c a h =
      observe_layer-IsSound x t ask c (layer_from_name t.name) refl a h

  pub callback-IsSound :
      IsExact native
      → (t : Option Tensor) (ask : Bool) (c : Capture F) → Sound c.state
      → Sound (callback native t ask c).1.state
  unfolding callback
  callback-IsSound x t ask c h =
      if_rule (λ (r : Bool × Capture F). Sound r.1.state) c.poisoned _ _ (λ _. h)
        λ _.
          if_rule (λ (r : Bool × Capture F). Sound r.1.state)
            (not c.state.active || is_some c.state.error) _ _ (λ _. h)
            (λ on. observe-IsSound x t ask c (ground arith) h)
