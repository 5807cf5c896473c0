-- ===== src/Log/Levels.antt =====
-- log.rs: which messages make the callback panic.
use llama_cpp_rs.Prelude.{
  ℕ, ◌≡◌, ◌↔◌, refl, Bool, true, false, List, ◌++◌, Option, none, some, arith, Bool-cases, ◌⊎◌, inl,
  inr, [], ◌∷◌, if_rule, ◌==◌,
}
use llama_cpp_rs.Prelude.Text.{Text}
use llama_cpp_rs.Prelude.Utf8.{to_string_lossy}
use llama_cpp_rs.Log.{
  level_cont, Module, State, Outcome, done, panic, ends_line, has_meta, emit, set_buffered,
  set_buffering, set_previous_level, generate_log, after, cont_with, cont_buffered_log, replaced,
  buffer_non_cont, flushed, without_last, emit_line, emit_non_cont_line,
  update_previous_level_for_disabled_log, effective, is_enabled_for_level, dispatch, checked,
  logs_to_trace, logs, new,
}

-- What is buffered has a level that can be logged.
abbrev BufferLogs : Option (ℕ × Text) → Type 0
BufferLogs none = Unit
BufferLogs (some (level, text)) = has_meta level ≡ true

abbrev pub IsSound : State → Type 0
IsSound s = BufferLogs s.buffered

-- The outcome is a sound state.
abbrev pub DoneSound : Outcome → Type 0
DoneSound (done s) = IsSound s
DoneSound panic = ⊥

new-IsSound : (target : Module) (disabled : Bool) → IsSound (new target disabled)
unfolding new
new-IsSound target disabled = tt

generate_log_sound :
    (level : ℕ) (text : Text) (s : State)
    → has_meta level ≡ true
    → IsSound s
    → DoneSound (generate_log level text s)
unfolding generate_log emit
generate_log_sound level text s h i = ground arith

after_sound :
    (o : Outcome) (f : State → Outcome)
    → DoneSound o
    → ((s : State) → IsSound s → DoneSound (f s))
    → DoneSound (after o f)
unfolding after
after_sound (done s) f d g = g s d
after_sound panic f d g = d

cont_with_sound :
    (b : Option (ℕ × Text)) (text : Text) (s : State)
    → BufferLogs b
    → has_meta s.previous_level ≡ true
    → DoneSound (cont_with b text s)
unfolding cont_with set_buffered set_buffering emit
cont_with_sound none text s b h = h
cont_with_sound (some (level, buffer)) text s b h =
    if_rule DoneSound (ends_line (buffer ++ text)) _ _
      (λ _. generate_log_sound level (buffer ++ text) _ b tt) (λ _. b)

replaced_sound :
    (b : Option (ℕ × Text)) (s : State) → BufferLogs b → IsSound s → DoneSound (replaced b s)
unfolding replaced emit
replaced_sound none s b i = i
replaced_sound (some (level, buffer)) s b i = generate_log_sound level buffer _ b i

flushed_sound :
    (b : Option (ℕ × Text)) (s : State) → BufferLogs b → IsSound s → DoneSound (flushed b s)
unfolding flushed emit set_buffered
flushed_sound none s b i = i
flushed_sound (some (level, buffer)) s b i = generate_log_sound level buffer _ b tt

pub has_meta-ne_none : (level : ℕ) → has_meta level ≡ true → (level == 0) ≡ false
unfolding has_meta
has_meta-ne_none level h = ground arith

emit_line_sound :
    (level : ℕ) (text : Text) (s : State)
    → has_meta level ≡ true
    → IsSound s
    → DoneSound (emit_line level text s)
unfolding emit_line
emit_line_sound level text s h i =
    ground (arith, has_meta-ne_none level h, generate_log_sound level text s h i)

dispatch_sound :
    (enabled : ℕ → Bool) (level : ℕ) (text : Text) (s : State)
    → has_meta (effective s.previous_level level) ≡ true
    → IsSound s
    → DoneSound (dispatch enabled level text s)
unfolding dispatch cont_buffered_log buffer_non_cont emit_non_cont_line set_buffered set_buffering
    set_previous_level effective
dispatch_sound enabled level text s h i = elim (Bool-cases (level == level_cont)) [
  | inl e ↦ rw e (cont_with_sound s.buffered text s i (ground (arith, h, e)))
  | inr e ↦ elim (Bool-cases (ends_line text)) [
    | inl l ↦
        rw (e, l)
          (after_sound _ _
            (if_rule DoneSound s.is_buffering _ _ (λ _. flushed_sound s.buffered _ i i) (λ _. i))
            (λ s' i'. emit_line_sound level (without_last text) _ (ground (arith, h, e)) i'))
    | inr l ↦
        rw (e, l)
          (after_sound _ _ (replaced_sound s.buffered _ i (ground (arith, h, e))) (λ s' i'. i'))
  ]
]

-- The callback panics at this message: logs are on, and the level that it counts as is none of DEBUG,
-- INFO, WARN and ERROR.
abbrev pub Unlogged : ℕ → State → Type 0
Unlogged level s = (s.disabled ≡ false) × (has_meta (effective s.previous_level level) ≡ false)

-- What a message does to a sound state.
abbrev Served : ℕ → State → Outcome → Type 0
Served level s (done s') = IsSound s' × (Unlogged level s → ⊥)
Served level s panic = Unlogged level s

dispatch-Served :
    (level : ℕ) (s : State) (o : Outcome)
    → has_meta (effective s.previous_level level) ≡ true
    → DoneSound o
    → Served level s o
dispatch-Served level s (done s') h d = (d, λ (_, p). ground (arith, h, p))
dispatch-Served level s panic h d = elim d [ ]

-- What the test of the level says of its result.
is_enabled_for_level-inv :
    (enabled : ℕ → Bool) (level : ℕ) (s : State)
    → (is_enabled_for_level enabled level s ≡ none)
        × (has_meta (effective s.previous_level level) ≡ false)
      ⊎ ((b : Bool) × (is_enabled_for_level enabled level s ≡ some b)
          × (has_meta (effective s.previous_level level) ≡ true))
unfolding is_enabled_for_level
is_enabled_for_level-inv enabled level s =
    elim (Bool-cases (has_meta (effective s.previous_level level))) [
      | inl e ↦ inr (enabled (effective s.previous_level level), rw e refl, e)
      | inr e ↦ inl (rw e refl, e)
    ]

update-IsSound :
    (level : ℕ) (s : State) → IsSound s → IsSound (update_previous_level_for_disabled_log level s)
unfolding update_previous_level_for_disabled_log set_previous_level
update-IsSound level s i = ground arith

checked-Served :
    (enabled : ℕ → Bool) (level : ℕ) (bytes : List ℕ) (s : State) (b : Bool)
    → s.disabled ≡ false
    → has_meta (effective s.previous_level level) ≡ true
    → IsSound s
    → Served level s (checked enabled (some b) level bytes s)
unfolding checked
checked-Served enabled level bytes s true on h i =
    dispatch-Served level s _ h (dispatch_sound enabled level (to_string_lossy bytes) s h i)
checked-Served enabled level bytes s false on h i =
    dispatch-Served level s (done (update_previous_level_for_disabled_log level s)) h
      (update-IsSound level s i)

logs_to_trace-Served :
    (enabled : ℕ → Bool) (level : ℕ) (bytes : List ℕ) (s : State)
    → IsSound s
    → Served level s (logs_to_trace enabled level bytes s)
unfolding logs_to_trace checked
logs_to_trace-Served enabled level bytes s i =
    if_rule (Served level s) s.disabled _ _
      (λ (off : s.disabled ≡ true). (i, λ (p, _). ground (arith, off, p)))
      (λ (on : s.disabled ≡ false). elim (is_enabled_for_level-inv enabled level s) [
        | inl (e, h) ↦ rw e (on, h)
        | inr (b, e, h) ↦ rw e (checked-Served enabled level bytes s b on h i)
      ])

-- The state after the messages, or a panic, from a sound state.
logs-IsSound :
    (enabled : ℕ → Bool) (messages : List (ℕ × List ℕ)) (s t : State)
    → IsSound s
    → logs enabled messages s ≡ done t
    → IsSound t
unfolding logs after
logs-IsSound enabled [] s t i h = ground arith
logs-IsSound enabled ((level, bytes) ∷ rest) s t i h =
    after_first (logs_to_trace enabled level bytes s) (logs_to_trace-Served enabled level bytes s i)
      h (λ u. logs-IsSound enabled rest u t)
  where
    after_first :
        (o : Outcome)
        → Served level s o
        → after o (logs enabled rest) ≡ done t
        → ((u : State) → IsSound u → logs enabled rest u ≡ done t → IsSound t)
        → IsSound t
    after_first (done u) d h rec = rec u d.0 h
    after_first panic d h rec = cc

-- After any messages from the start, the next one makes the callback panic exactly when logs are on and
-- its level, for CONT the level of the message before it, is none of DEBUG, INFO, WARN and ERROR: so a message without a
-- level always does, a CONT that comes first does, and the branches for such lines are never reached.
pub logs_to_trace-panic_iff :
    (enabled : ℕ → Bool) (target : Module) (disabled : Bool) (messages : List (ℕ × List ℕ))
    (s : State)
    → logs enabled messages (new target disabled) ≡ done s
    → (level : ℕ) (bytes : List ℕ)
    → (logs_to_trace enabled level bytes s ≡ panic) ↔ Unlogged level s
logs_to_trace-panic_iff enabled target disabled messages s h level bytes =
    let i = logs-IsSound enabled messages (new target disabled) s (new-IsSound target disabled) h in
    panic_iff (logs_to_trace enabled level bytes s) (logs_to_trace-Served enabled level bytes s i)
  where
    panic_iff : (o : Outcome) → Served level s o → (o ≡ panic) ↔ Unlogged level s
    panic_iff (done s') d = (λ e. cc, λ u. absurd (d.1 u))
    panic_iff panic d = (λ e. d, λ u. refl)
