-- ===== src/Log/History.antt =====
-- log.rs: sequences of messages, which are well formed and what they show.
use mathlib.Core.List.{append_assoc, append-nil}
use llama_cpp_rs.Prelude.{ℕ, ◌≡◌, refl, sym, ◌∙◌, Bool, true, false, List, [], ◌∷◌, ◌++◌}
use llama_cpp_rs.Prelude.Text.{Text}
use llama_cpp_rs.Prelude.Utf8.{to_string_lossy}
use llama_cpp_rs.Log.{
  level_cont, Module, State, Outcome, done, panic, has_meta, after, effective, logs_to_trace, logs,
  new,
}
use llama_cpp_rs.Log.Written.{pending, shown, written, InStep, DoneInStep}
use llama_cpp_rs.Log.Complete.{kept_text, opened_by, logs_to_trace-DoneInStep}

module _ (enabled : ℕ → Bool) where
  -- The messages are as llama.cpp means them: each has a level that can be logged, and a CONT that is
  -- enabled continues a line that is open. A CONT counts as the level `prev` of the message before it.
  abbrev pub Fed : Bool → ℕ → List (ℕ × List ℕ) → Type 0
  Fed opened prev [] = Unit
  Fed opened prev ((level, bytes) ∷ rest) =
      (has_meta (effective prev level) ≡ true)
      × (level ≡ level_cont → enabled prev ≡ true → opened ≡ true)
      × Fed (opened_by enabled (effective prev level) (to_string_lossy bytes) opened)
          (effective prev level) rest

  -- the enabled messages, read lossily as UTF-8, one after the other, without line feeds
  abbrev pub kept : ℕ → List (ℕ × List ℕ) → Text
  kept prev [] = []
  kept prev ((level, bytes) ∷ rest) =
      kept_text enabled (effective prev level) (to_string_lossy bytes)
      ++ kept (effective prev level) rest

  logs-shown_from :
      (messages : List (ℕ × List ℕ)) (opened : Bool) (prev : ℕ) (text : Text) (s : State)
      → Fed opened prev messages
      → InStep opened prev text s
      → (t : State) × (logs enabled messages s ≡ done t) × (shown t ≡ text ++ kept prev messages)
  unfolding logs
  logs-shown_from [] opened prev text s fed i = (s, refl, i.4 ∙ sym (append-nil text))
  logs-shown_from ((level, bytes) ∷ rest) opened prev text s (meta, feeds, fed) i =
      served (logs_to_trace enabled level bytes s)
        (logs_to_trace-DoneInStep enabled opened level prev bytes text s meta feeds i)
        (λ u j.
          logs-shown_from rest
            (opened_by enabled (effective prev level) (to_string_lossy bytes) opened)
            (effective prev level)
            (text ++ kept_text enabled (effective prev level) (to_string_lossy bytes)) u fed j)
    where
      served :
          (o : Outcome)
          → DoneInStep
              (opened_by enabled (effective prev level) (to_string_lossy bytes) opened)
              (effective prev level)
              (text ++ kept_text enabled (effective prev level) (to_string_lossy bytes))
              o
          → ((u : State)
              → InStep
                  (opened_by enabled (effective prev level) (to_string_lossy bytes) opened)
                  (effective prev level)
                  (text ++ kept_text enabled (effective prev level) (to_string_lossy bytes))
                  u
              → (t : State) × (logs enabled rest u ≡ done t)
                × (shown t
                    ≡ (text ++ kept_text enabled (effective prev level) (to_string_lossy bytes))
                      ++ kept (effective prev level) rest))
          → (t : State) × (after o (logs enabled rest) ≡ done t)
            × (shown t
                ≡ text
                  ++ (kept_text enabled (effective prev level) (to_string_lossy bytes)
                      ++ kept (effective prev level) rest))
      served (done u) d rec =
          let (t, e, f) = rec u d in
          (
            t,
            unfold after in e,
            f
                ∙ append_assoc text
                    (kept_text enabled (effective prev level) (to_string_lossy bytes)) _,
          )
      served panic d rec = elim d [ ]

  -- Where every message has a level that can be logged and every enabled CONT continues an open line, the
  -- callback never panics, and the texts of its logs in their order, with what is still buffered, are the
  -- enabled messages in their order, each read lossily as UTF-8, up to line feeds. The warnings that the
  -- crate sends of its own, which repeat the text that they are about, are not counted among the logs.
  pub logs-shown :
      (target : Module) (messages : List (ℕ × List ℕ))
      → Fed false 0 messages
      → (t : State) × (logs enabled messages (new target false) ≡ done t)
        × (shown t ≡ kept 0 messages)
  logs-shown target messages fed =
      logs-shown_from messages false 0 [] (new target false) fed
        (unfold new shown written pending in (refl, refl, tt, refl, refl))
