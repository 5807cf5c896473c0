-- ===== src/Log/Orphan.antt =====
-- log.rs: a CONT that continues nothing.
use mathlib.Core.List.{append-nil}
use llama_cpp_rs.Prelude.{
  ℕ, ◌≡◌, refl, sym, ap, ap₂, ◌∙◌, Bool, true, false, List, [], ◌∷◌, ◌++◌, none, some, arith, ◌==◌,
}
use llama_cpp_rs.Prelude.Text.{Text}
use llama_cpp_rs.Prelude.Utf8.{to_string_lossy}
use llama_cpp_rs.Log.{
  level_cont, State, Outcome, done, panic, orphan_cont, ends_line, has_meta, emit, set_buffered,
  set_previous_level, generate_log, after, cont_with, cont_buffered_log, without_last, emit_line,
  emit_non_cont_line, effective, is_enabled_for_level, dispatch, checked, logs_to_trace, logs,
}
use llama_cpp_rs.Log.Levels.{has_meta-ne_none}
use llama_cpp_rs.Log.Written.{
  unlined, event_text, written, pending, shown, written-append, out, Wrote, generate_log-Wrote,
}
use llama_cpp_rs.Log.Handlers.{unlined-without_last}

-- A state that waits for a message: nothing is buffered, and the last level is logged and enabled.
abbrev pub IsIdle : (ℕ → Bool) → State → Type 0
IsIdle enabled s =
    (s.disabled ≡ false)
    × (s.buffered ≡ none)
    × (s.is_buffering ≡ false)
    × (has_meta s.previous_level ≡ true)
    × (enabled s.previous_level ≡ true)

-- the state after the orphan
stray : Text → State → State
stray b s = set_buffered (some (s.previous_level, b)) (emit (orphan_cont s.previous_level b) s)

has_meta-ne_cont : (level : ℕ) → has_meta level ≡ true → (level == level_cont) ≡ false
unfolding has_meta
has_meta-ne_cont level h = ground arith

module _ (enabled : ℕ → Bool) where
  orphan_lem :
      (b : List ℕ) (s : State)
      → IsIdle enabled s
      → logs_to_trace enabled level_cont b s ≡ done (stray (to_string_lossy b) s)
  unfolding logs_to_trace is_enabled_for_level checked effective dispatch cont_buffered_log
      cont_with stray
  orphan_lem b s (off, none_held, flag, meta, on) = ground (arith, off, none_held, meta, on)

  line_lem :
      (level : ℕ) (c : List ℕ) (s : State)
      → s.disabled ≡ false
      → s.is_buffering ≡ false
      → has_meta level ≡ true
      → enabled level ≡ true
      → ends_line (to_string_lossy c) ≡ true
      → logs_to_trace enabled level c s
        ≡ generate_log level (without_last (to_string_lossy c)) (set_previous_level level s)
  unfolding logs_to_trace is_enabled_for_level checked effective dispatch emit_non_cont_line
      emit_line after
  line_lem level c s off flag meta on l =
      ground
        (arith, off, flag, meta, on, l, has_meta-ne_cont level meta, has_meta-ne_none level meta)

  Wrote-done :
      (o : Outcome) (text : Text) (s : State)
      → Wrote text s o
      → (t : State) × (o ≡ done t) × (out t ≡ out s ++ unlined text) × (t.buffered ≡ s.buffered)
  unfolding Wrote
  Wrote-done (done t) text s (a, b, c, d, e) = (t, refl, e, b)
  Wrote-done panic text s w = elim w [ ]

  -- Where nothing is buffered, a CONT is kept back, and a line that follows it is shown without it: the
  -- text of the CONT stays buffered and comes out of order, after the line. The texts are the messages
  -- read lossily as UTF-8.
  pub logs-reordered :
      (level : ℕ) (b c : List ℕ) (s : State)
      → IsIdle enabled s
      → has_meta level ≡ true
      → enabled level ≡ true
      → ends_line (to_string_lossy c) ≡ true
      → (t : State) × (logs enabled ((level_cont, b) ∷ (level, c) ∷ []) s ≡ done t)
        × (t.buffered ≡ some (s.previous_level, to_string_lossy b))
        × (shown t ≡ (shown s ++ unlined (to_string_lossy c)) ++ unlined (to_string_lossy b))
  unfolding logs after
  logs-reordered level b c s idle meta on l =
      let text = to_string_lossy b in
      let line = to_string_lossy c in
      let s1 = stray text s in
      let s2 = set_previous_level level s1 in
      let (t, e, shows, holds) =
        Wrote-done _ (without_last line) s2
          (generate_log-Wrote level (without_last line) s2 meta) in
      let second : logs_to_trace enabled level c s1 ≡ done t =
        line_lem level c s1 (unfold stray set_buffered emit in idle.0)
          (unfold stray set_buffered emit in idle.2) meta on l
        ∙ e in
      let held : t.buffered ≡ some (s.previous_level, text) =
        holds ∙ (unfold set_previous_level stray set_buffered emit in refl) in
      let silent : out s2 ≡ out s =
        unfold set_previous_level stray set_buffered emit out event_text unlined in
        (written-append s.target s.events (orphan_cont s.previous_level text)
          ∙ append-nil (written s.target s.events)) in
      let before : shown s ≡ out s =
        unfold shown pending out in
        (ap (λ r. written s.target s.events ++ pending r) idle.1
          ∙ append-nil (written s.target s.events)) in
      (
        t,
        rw (orphan_lem b s idle) (ap (λ o. after o done) second),
        held,
        unfold shown out pending in
            (ap₂ ◌++◌ (shows ∙ ap₂ ◌++◌ (silent ∙ sym before) (unlined-without_last line l))
              (ap pending held)),
      )
