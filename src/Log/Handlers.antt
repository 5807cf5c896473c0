-- ===== src/Log/Handlers.antt =====
-- log.rs: the text that is left by `buffer_non_cont` and `emit_non_cont_line`.
use mathlib.Core.List.{append-nil}
use mathlib.Core.Path.{subst}
use llama_cpp_rs.Prelude.{
  ℕ, ◌≡◌, refl, sym, ap, ap₂, ◌∙◌, Bool, true, false, [], ◌∷◌, ◌++◌, Option, none, some, arith,
  ◌==◌, if◌then◌else◌,
}
use llama_cpp_rs.Prelude.Text.{Text}
use llama_cpp_rs.Log.{
  level_cont, State, Outcome, done, panic, Event, buffered_unnecessarily, buffered_spuriously,
  ends_line, has_meta, emit, set_buffered, set_buffering, set_previous_level, generate_log, after,
  replaced, buffer_non_cont, flushed, without_last, emit_line, emit_non_cont_line,
}
use llama_cpp_rs.Log.Levels.{has_meta-ne_none}
use llama_cpp_rs.Log.Written.{
  unlined, event_text, written, pending, shown, written-append, out, Wrote, generate_log-Wrote,
  Held, InStep, DoneInStep, settle,
}

-- The outcome shows `text`, and has what is buffered, its flag and its switch as `s` has them.
Flushed : Text → State → Outcome → Type 0
Flushed text s (done s') =
    (s'.disabled ≡ s.disabled)
    × (s'.buffered ≡ s.buffered)
    × (s'.is_buffering ≡ s.is_buffering)
    × (out s' ≡ text)
Flushed text s panic = ⊥

Wrote-Flushed :
    (o : Outcome) (t text : Text) (s : State) (e : Event)
    → Wrote t (emit e s) o
    → out (emit e s) ++ unlined t ≡ text
    → Flushed text s o
unfolding Flushed Wrote emit
Wrote-Flushed (done s') t text s e (a, b, c, d, f) h = (a, b, d, f ∙ h)
Wrote-Flushed panic t text s e w h = w

-- A warning and the text that it is about.
warned-Flushed :
    (e : Event) (level : ℕ) (t text : Text) (s : State)
    → event_text s.target e ≡ []
    → has_meta level ≡ true
    → out s ++ unlined t ≡ text
    → Flushed text s (generate_log level t (emit e s))
unfolding unlined
warned-Flushed e level t text s h meta f =
    let silent : out (emit e s) ≡ out s =
      unfold out emit in
      (written-append s.target s.events e
        ∙ ap (λ r. written s.target s.events ++ unlined r) h
        ∙ append-nil (written s.target s.events)) in
    Wrote-Flushed _ t text s e (generate_log-Wrote level t (emit e s) meta)
      (ap (λ r. r ++ unlined t) silent ∙ f)

replaced-Flushed :
    (opened : Bool) (b : Option (ℕ × Text)) (s : State) (text : Text)
    → Held opened b
    → out s ++ pending b ≡ text
    → Flushed text s (replaced b s)
unfolding replaced pending event_text Flushed
replaced-Flushed opened none s text h e = (refl, refl, refl, sym (append-nil (out s)) ∙ e)
replaced-Flushed true (some (level, b)) s text h e =
    unfold event_text in warned-Flushed (buffered_unnecessarily level b) level b text s refl h.0 e
replaced-Flushed false (some p) s text h e = elim h [ ]

-- A message without a line feed opens a line.
opened-DoneInStep :
    (o : Outcome) (level : ℕ) (t text : Text) (s : State)
    → Flushed text s o
    → s.disabled ≡ false
    → s.buffered ≡ some (level, t)
    → has_meta level ≡ true
    → ends_line t ≡ false
    → DoneInStep true level
        (text ++ unlined t)
        (after o (λ s'. done (set_previous_level level (set_buffering true s'))))
unfolding after Flushed shown set_previous_level set_buffering out
opened-DoneInStep (done s') level t text s (a, b, c, d) off e meta l =
    let held = b ∙ e in
    (
      a ∙ off,
      refl,
      subst (Held true) (sym held) (meta, l),
      refl,
      ap₂ ◌++◌ d (ap pending held ∙ (unfold pending in refl)),
    )
opened-DoneInStep panic level t text s f off e meta l = elim f [ ]

pub buffer_non_cont-DoneInStep :
    (opened : Bool) (level prev : ℕ) (t text : Text) (s : State)
    → (level == level_cont) ≡ false
    → ends_line t ≡ false
    → has_meta level ≡ true
    → InStep opened prev text s
    → DoneInStep true level (text ++ unlined t) (buffer_non_cont level t s)
unfolding buffer_non_cont shown
buffer_non_cont-DoneInStep opened level prev t text s c l meta (off, flag, held, before, f) =
    rw (l, c)
      (opened-DoneInStep (replaced s.buffered (set_buffered (some (level, t)) s)) level t text
        (set_buffered (some (level, t)) s)
        (replaced-Flushed opened s.buffered (set_buffered (some (level, t)) s) text held
          (unfold out set_buffered in f))
        (unfold set_buffered in off) (unfold set_buffered in refl) meta l)

-- Nothing is buffered, and the text has been shown.
Cleared : Text → Outcome → Type 0
Cleared text (done s) =
    (s.disabled ≡ false) × (s.buffered ≡ none) × (s.is_buffering ≡ false) × (out s ≡ text)
Cleared text panic = ⊥

Flushed-Cleared :
    (o : Outcome) (text : Text) (s : State)
    → Flushed text s o
    → s.disabled ≡ false
    → s.buffered ≡ none
    → s.is_buffering ≡ false
    → Cleared text o
unfolding Flushed Cleared
Flushed-Cleared (done s') text s (a, b, c, d) off e f = (a ∙ off, b ∙ e, c ∙ f, d)
Flushed-Cleared panic text s h off e f = h

flush-Cleared :
    (opened : Bool) (b : Option (ℕ × Text)) (text : Text) (s : State)
    → s.disabled ≡ false
    → s.is_buffering ≡ opened
    → s.buffered ≡ b
    → Held opened b
    → out s ++ pending b ≡ text
    → Cleared text (if opened then flushed b (set_buffering false s) else done s)
unfolding flushed pending
flush-Cleared true none text s off flag e h f = elim h [ ]
flush-Cleared true (some (level, b)) text s off flag e h f =
    let s1 = set_buffered none (set_buffering false s) in
    Flushed-Cleared _ text s1
      (warned-Flushed (buffered_spuriously level b) level b text s1 (unfold event_text in refl) h.0
        (unfold out set_buffered set_buffering in f))
      (unfold set_buffered set_buffering in off) (unfold set_buffered in refl)
      (unfold set_buffered set_buffering in refl)
flush-Cleared false none text s off flag e h f =
    unfold Cleared in (off, e, flag, sym (append-nil (out s)) ∙ f)
flush-Cleared false (some p) text s off flag e h f = elim h [ ]

pub unlined-without_last : (t : Text) → ends_line t ≡ true → unlined (without_last t) ≡ unlined t
unfolding ends_line without_last unlined
unlined-without_last [] h = refl
unlined-without_last (c ∷ []) h = ground arith
unlined-without_last (c ∷ d ∷ t) h = ground (arith, unlined-without_last (d ∷ t) h)

-- A message with a line feed is shown at once.
line-DoneInStep :
    (o : Outcome) (level : ℕ) (t text : Text)
    → Cleared text o
    → has_meta level ≡ true
    → ends_line t ≡ true
    → DoneInStep false level
        (text ++ unlined t)
        (after o (λ s'. emit_line level (without_last t) (set_previous_level level s')))
unfolding after Cleared emit_line pending
line-DoneInStep (done s) level t text (a, b, c, d) meta l =
    let s1 = set_previous_level level s in
    rw (has_meta-ne_none level meta, meta)
      (settle (generate_log level (without_last t) s1) (without_last t) s1 false level
        (text ++ unlined t) (generate_log-Wrote level (without_last t) s1 meta)
        (unfold set_previous_level in a) (unfold set_previous_level in c)
        (unfold set_previous_level in subst (Held false) (sym b) tt)
        (unfold set_previous_level in refl)
        (unfold set_previous_level out in
          (ap (λ r. (written s.target s.events ++ unlined (without_last t)) ++ pending r) b
            ∙ append-nil _
            ∙ ap₂ ◌++◌ d (unlined-without_last t l))))
line-DoneInStep panic level t text h meta l = elim h [ ]

pub emit_non_cont_line-DoneInStep :
    (opened : Bool) (level prev : ℕ) (t text : Text) (s : State)
    → (level == level_cont) ≡ false
    → ends_line t ≡ true
    → has_meta level ≡ true
    → InStep opened prev text s
    → DoneInStep false level (text ++ unlined t) (emit_non_cont_line level t s)
unfolding emit_non_cont_line
emit_non_cont_line-DoneInStep opened level prev t text s c l meta (off, flag, held, before, f) =
    rw (l, c)
      (line-DoneInStep
        (if s.is_buffering then flushed s.buffered (set_buffering false s) else done s) level t text
        (flush-Cleared s.is_buffering s.buffered text s off refl refl
          (subst (λ o. Held o s.buffered) (sym flag) held) (unfold shown out in f))
        meta l)
