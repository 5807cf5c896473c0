-- ===== src/Log/Complete.antt =====
-- log.rs: what each handler makes of the text of a message.
use mathlib.Core.List.{append-nil}
use mathlib.Core.Path.{subst}
use llama_cpp_rs.Prelude.{
  ℕ, ◌≡◌, refl, sym, ap, ◌∙◌, Bool, true, false, not, List, [], ◌++◌, arith, Bool-cases, inl, inr,
  if_rule, ◌==◌, ==_iff, if◌then◌else◌,
}
use llama_cpp_rs.Prelude.Text.{Text}
use llama_cpp_rs.Prelude.Utf8.{to_string_lossy}
use llama_cpp_rs.Log.{
  level_cont, State, ends_line, has_meta, set_previous_level, cont_buffered_log,
  update_previous_level_for_disabled_log, effective, is_enabled_for_level, dispatch, checked,
  logs_to_trace,
}
use llama_cpp_rs.Log.Handlers.{buffer_non_cont-DoneInStep, emit_non_cont_line-DoneInStep}
use llama_cpp_rs.Log.Written.{unlined, shown, InStep, DoneInStep, cont_with-DoneInStep}

-- A message is served: with its text, if its level is enabled, and else with no text.
abbrev pub kept_text : (ℕ → Bool) → ℕ → Text → Text
kept_text enabled level text = if enabled level then unlined text else []

-- whether a line is open after a message
abbrev pub opened_by : (ℕ → Bool) → ℕ → Text → Bool → Bool
opened_by enabled level text opened = if enabled level then not (ends_line text) else opened

dispatch-DoneInStep :
    (enabled : ℕ → Bool) (opened : Bool) (level prev : ℕ) (t text : Text) (s : State)
    → has_meta (effective prev level) ≡ true
    → (level ≡ level_cont → opened ≡ true)
    → InStep opened prev text s
    → DoneInStep
        (not (ends_line t))
        (effective prev level)
        (text ++ unlined t)
        (dispatch enabled level t s)
unfolding dispatch effective cont_buffered_log
dispatch-DoneInStep enabled opened level prev t text s meta feeds i =
    elim (Bool-cases (level == level_cont)) [
      | inl c ↦
          let o : opened ≡ true = feeds ((==_iff level level_cont).0 c) in
          rw c (
            cont_with-DoneInStep s.buffered t text prev s refl
              (subst (λ b. InStep b prev text s) o i))
      | inr c ↦
          let meta' : has_meta level ≡ true = ground (arith, meta, c) in
          elim (Bool-cases (ends_line t)) [
            | inl l ↦
                rw (c, l) (emit_non_cont_line-DoneInStep opened level prev t text s c l meta' i)
            | inr l ↦ rw (c, l) (buffer_non_cont-DoneInStep opened level prev t text s c l meta' i)
          ]
    ]

skipped-InStep :
    (opened : Bool) (level prev : ℕ) (text : Text) (s : State)
    → InStep opened prev text s
    → InStep opened
        (effective prev level)
        (text ++ [])
        (update_previous_level_for_disabled_log level s)
unfolding update_previous_level_for_disabled_log effective set_previous_level shown
skipped-InStep opened level prev text s i = elim (Bool-cases (level == level_cont)) [
  | inl c ↦ rw c (subst (λ r. InStep opened prev r s) (sym (append-nil text)) (unfold shown in i))
  | inr c ↦ rw c (i.0, i.1, i.2, refl, i.4 ∙ sym (append-nil text))
]

effective_cont : (prev level : ℕ) → level ≡ level_cont → effective prev level ≡ prev
unfolding effective
effective_cont prev level c = ground (arith, ==_iff level level_cont)

pub logs_to_trace-DoneInStep :
    (enabled : ℕ → Bool) (opened : Bool) (level prev : ℕ) (bytes : List ℕ) (text : Text) (s : State)
    → has_meta (effective prev level) ≡ true
    → (level ≡ level_cont → enabled prev ≡ true → opened ≡ true)
    → InStep opened prev text s
    → DoneInStep
        (opened_by enabled (effective prev level) (to_string_lossy bytes) opened)
        (effective prev level)
        (text ++ kept_text enabled (effective prev level) (to_string_lossy bytes))
        (logs_to_trace enabled level bytes s)
unfolding logs_to_trace is_enabled_for_level checked
logs_to_trace-DoneInStep enabled opened level prev bytes text s meta feeds i =
    let t = to_string_lossy bytes in
    let same : effective s.previous_level level ≡ effective prev level =
      ap (λ q. effective q level) i.3 in
    elim (Bool-cases (enabled (effective prev level))) [
      | inl e ↦ rw e (
          if_rule (DoneInStep (not (ends_line t)) (effective prev level) (text ++ unlined t))
            s.disabled _ _ (λ (off : s.disabled ≡ true). ground (arith, off, i.0))
            (λ (on : s.disabled ≡ false).
              rw (same, meta, e)
                (dispatch-DoneInStep enabled opened level prev t text s meta
                  (λ c. feeds c (ap enabled (sym (effective_cont prev level c)) ∙ e)) i)))
      | inr e ↦ rw e (
          if_rule (DoneInStep opened (effective prev level) (text ++ [])) s.disabled _ _
            (λ (off : s.disabled ≡ true). ground (arith, off, i.0))
            (λ (on : s.disabled ≡ false).
              rw (same, meta, e) (skipped-InStep opened level prev text s i)))
    ]
