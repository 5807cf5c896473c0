-- ===== src/Log/Written.antt =====
-- log.rs: the text that the logs of a state show, with what is buffered.
use mathlib.Core.Path.{subst}
use mathlib.Core.List.{append_assoc, append-nil}
use llama_cpp_rs.Prelude.{
  ℕ, zero, suc, ◌+◌, ◌≡◌, refl, sym, ap, ap₂, ◌∙◌, Bool, true, false, not, ◌&&◌, List, [], ◌∷◌,
  ◌++◌, Option, none, some, take, drop, length, arith, Bool-cases, inl, inr, if_rule, ◌==◌,
  if◌then◌else◌,
}
use llama_cpp_rs.Prelude.Text.{Text, codes, text_eqb, text_eqb_iff}
use llama_cpp_rs.Log.{
  Module, State, Outcome, done, panic, Event, log, no_log_level, unknown_level, orphan_cont,
  buffered_unnecessarily, buffered_spuriously, ends_line, has_meta, split_module, module_length,
  name, emit, set_buffered, set_buffering, generate_log, cont_with,
}

-- The text without its line feeds.
unfoldable pub unlined : Text → Text
unlined [] = []
unlined (c ∷ t) = if c == 10 then unlined t else c ∷ unlined t

-- The text of a log, with the module put back.
unfoldable pub log_text : Module → Option Text → Text → Text
log_text target none text = text
log_text target (some sub_module) text =
    drop (length (name target) + 2) sub_module ++ (codes ": " ++ text)

-- The text of a message that an event logs. The crate's own warnings are no logs, and count for nothing
-- here, although each repeats the text that it is about.
unfoldable pub event_text : Module → Event → Text
event_text target (log level sub_module text) = log_text target sub_module text
event_text target (no_log_level text) = text
event_text target (unknown_level level text) = text
event_text target (orphan_cont level text) = []
event_text target (buffered_unnecessarily level text) = []
event_text target (buffered_spuriously level text) = []

unfoldable pub written : Module → List Event → Text
written target [] = []
written target (e ∷ events) = unlined (event_text target e) ++ written target events

unfoldable pub pending : Option (ℕ × Text) → Text
pending none = []
pending (some (level, buffer)) = unlined buffer

-- What a state shows and will show.
unfoldable pub shown : State → Text
shown s = written s.target s.events ++ pending s.buffered

unlined-append : (xs ys : Text) → unlined (xs ++ ys) ≡ unlined xs ++ unlined ys
unfolding unlined
unlined-append [] ys = refl
unlined-append (c ∷ xs) ys = ground (arith, unlined-append xs ys)

pub written-append :
    (target : Module) (es : List Event) (e : Event)
    → written target (es ++ (e ∷ [])) ≡ written target es ++ unlined (event_text target e)
unfolding written
written-append target [] e = append-nil _
written-append target (f ∷ es) e =
    ap (λ t. unlined (event_text target f) ++ t) (written-append target es e)
    ∙ sym (append_assoc (unlined (event_text target f)) (written target es) _)

drop-nil : (n : ℕ) → drop {A = ℕ} n [] ≡ []
drop-nil zero = refl
drop-nil (suc n) = refl

drop-add : (n m : ℕ) (t : Text) → drop (n + m) t ≡ drop m (drop n t)
drop-add zero m t = subst (λ k. drop k t ≡ drop m t) (omega arith) refl
drop-add (suc n) m [] = drop-nil (suc n + m) ∙ sym (drop-nil m)
drop-add (suc n) m (c ∷ t) =
    let k : suc n + m ≡ suc (n + m) = omega arith in ap (λ j. drop j (c ∷ t)) k ∙ drop-add n m t

take-drop : (n : ℕ) (t : Text) → take n t ++ drop n t ≡ t
take-drop zero t = refl
take-drop (suc n) [] = refl
take-drop (suc n) (c ∷ t) = ap (λ r. c ∷ r) (take-drop n t)

drop-append : (xs ys : Text) → drop (length xs) (xs ++ ys) ≡ ys
drop-append [] ys = refl
drop-append (x ∷ xs) ys = drop-append xs ys

-- The text of a log is that of its message, whether a module was split off or not.
log_text-split_module :
    (target : Module) (text : Text)
    → log_text target (split_module target text).0 (split_module target text).1 ≡ text
unfolding log_text split_module
log_text-split_module target text =
    let n = module_length text in
    if_rule (λ (p : Option Text × Text). log_text target p.0 p.1 ≡ text)
      (not (n == 0) && text_eqb (take 2 (drop n text)) (codes ": ")) _ _
      (λ (e : (not (n == 0) && text_eqb (take 2 (drop n text)) (codes ": ")) ≡ true).
        let colon : take 2 (drop n text) ≡ codes ": " =
          ground (arith, e, text_eqb_iff (take 2 (drop n text)) (codes ": ")) in
        let prefix : drop (length (name target) + 2) (name target ++ (codes "::" ++ take n text))
            ≡ take n text =
          drop-add (length (name target)) 2 _ ∙ ap (drop 2) (drop-append (name target) _) in
        let rest : codes ": " ++ drop (n + 2) text ≡ drop n text =
          ap (λ t. codes ": " ++ t) (drop-add n 2 text)
          ∙ ap (λ t. t ++ drop 2 (drop n text)) (sym colon)
          ∙ take-drop 2 (drop n text) in
        ap₂ ◌++◌ prefix rest ∙ take-drop n text)
      (λ _. refl)

unfoldable pub out : State → Text
out s = written s.target s.events

-- The outcome has shown the text besides, and changed nothing else.
unfoldable pub Wrote : Text → State → Outcome → Type 0
Wrote text s (done s') =
    (s'.disabled ≡ s.disabled)
    × (s'.buffered ≡ s.buffered)
    × (s'.previous_level ≡ s.previous_level)
    × (s'.is_buffering ≡ s.is_buffering)
    × (out s' ≡ out s ++ unlined text)
Wrote text s panic = ⊥

emit-Wrote :
    (e : Event) (text : Text) (s : State)
    → event_text s.target e ≡ text
    → Wrote text s (done (emit e s))
unfolding Wrote out emit
emit-Wrote e text s h =
    (refl, refl, refl, refl, written-append s.target s.events e ∙ ap (λ t. out s ++ unlined t) h)

pub generate_log-Wrote :
    (level : ℕ) (text : Text) (s : State)
    → has_meta level ≡ true
    → Wrote text s (generate_log level text s)
unfolding generate_log event_text
generate_log-Wrote level text s h =
    if_rule (Wrote text s) (has_meta level) _ panic
      (λ _.
        emit-Wrote (log level (split_module s.target text).0 (split_module s.target text).1) text s
          (log_text-split_module s.target text))
      (λ no. ground (arith, h, no))

-- What is buffered, where something is: a text of a level that can be logged, which ends no line.
abbrev pub Held : Bool → Option (ℕ × Text) → Type 0
Held true none = ⊥
Held true (some (level, text)) = (has_meta level ≡ true) × (ends_line text ≡ false)
Held false none = Unit
Held false (some p) = ⊥

-- A state in step with the messages: whether a line is open, the level of the last message, the text so far.
abbrev pub InStep : Bool → ℕ → Text → State → Type 0
InStep opened prev text s =
    (s.disabled ≡ false)
    × (s.is_buffering ≡ opened)
    × Held opened s.buffered
    × (s.previous_level ≡ prev)
    × (shown s ≡ text)

abbrev pub DoneInStep : Bool → ℕ → Text → Outcome → Type 0
DoneInStep opened prev text (done s) = InStep opened prev text s
DoneInStep opened prev text panic = ⊥

pub settle :
    (o : Outcome) (t : Text) (s : State) (opened : Bool) (prev : ℕ) (text : Text)
    → Wrote t s o
    → s.disabled ≡ false
    → s.is_buffering ≡ opened
    → Held opened s.buffered
    → s.previous_level ≡ prev
    → (out s ++ unlined t) ++ pending s.buffered ≡ text
    → DoneInStep opened prev text o
unfolding Wrote shown out
settle (done s') t s opened prev text (p, q, r, u, w) a b c d e =
    (p ∙ a, u ∙ b, subst (Held opened) (sym q) c, r ∙ d, ap₂ ◌++◌ w (ap pending q) ∙ e)
settle panic t s opened prev text w a b c d e = elim w [ ]

ends_line-append : (b t : Text) → ends_line b ≡ false → ends_line (b ++ t) ≡ ends_line t
unfolding ends_line
ends_line-append [] t h = refl
ends_line-append (c ∷ []) [] h = h
ends_line-append (c ∷ []) (d ∷ t) h = refl
ends_line-append (c ∷ d ∷ b) t h = ends_line-append (d ∷ b) t h

-- A continuation of an open line.
pub cont_with-DoneInStep :
    (b : Option (ℕ × Text)) (t text : Text) (prev : ℕ) (s : State)
    → s.buffered ≡ b
    → InStep true prev text s
    → DoneInStep (not (ends_line t)) prev (text ++ unlined t) (cont_with b t s)
unfolding cont_with shown pending set_buffering set_buffered
cont_with-DoneInStep none t text prev s e (a, b, c, d, f) = absurd (subst (Held true) e c)
cont_with-DoneInStep (some (level, buffer)) t text prev s e (a, b, c, d, f) =
    let (meta, inside) = subst (Held true) e c in
    let before : written s.target s.events ++ unlined buffer ≡ text =
      ap (λ (r : Option (ℕ × Text)). written s.target s.events ++ pending r) (sym e) ∙ f in
    let joined : written s.target s.events ++ unlined (buffer ++ t) ≡ text ++ unlined t =
      ap (λ r. written s.target s.events ++ r) (unlined-append buffer t)
      ∙ sym (append_assoc (written s.target s.events) (unlined buffer) (unlined t))
      ∙ ap (λ r. r ++ unlined t) before in
    let same = ends_line-append buffer t inside in
    elim (Bool-cases (ends_line t)) [
      | inl l ↦
          rw (l, same ∙ l)
            (settle _ (buffer ++ t) _ false prev (text ++ unlined t)
              (generate_log-Wrote level (buffer ++ t) (set_buffering false (set_buffered none s))
                meta)
              a refl tt d (unfold out in append-nil _ ∙ joined))
      | inr l ↦ rw (l, same ∙ l) (a, b, (meta, same ∙ l), d, joined)
    ]
