-- ===== src/Log.antt =====
-- llama-cpp-2/src/log.rs, and `logs_to_trace` of llama-cpp-2/src/lib.rs: the logs of llama.cpp and ggml
-- made into events of `tracing`. The events of a state are those that it has sent, and which levels the
-- subscriber enables is a parameter. A level is the number that llama.cpp gives it.
pub mod Levels
pub mod Written
pub mod Handlers
pub mod Complete
pub mod History
pub mod Orphan
use llama_cpp_rs.Prelude.{
  ℕ, zero, suc, ◌+◌, Bool, true, false, not, ◌&&◌, ◌||◌, List, [], ◌∷◌, ◌++◌, Option, none, some,
  take, drop, length, leb, ◌==◌, if◌then◌else◌,
}
use llama_cpp_rs.Prelude.Text.{Text, codes, text_eqb}
use llama_cpp_rs.Prelude.Utf8.{to_string_lossy}

abbrev pub level_none : ℕ
level_none = 0

abbrev pub level_debug : ℕ
level_debug = 1

abbrev pub level_info : ℕ
level_info = 2

abbrev pub level_warn : ℕ
level_warn = 3

abbrev pub level_error : ℕ
level_error = 4

abbrev pub level_cont : ℕ
level_cont = 5

pub data Module : Type 0 where
  ggml llama_cpp : Module

unfoldable pub name : Module → Text
name ggml = codes "ggml"
name llama_cpp = codes "llama.cpp"

-- What is sent to `tracing`: a log with its level, module and text; a line without a level or of an
-- unknown one; and the warnings of the crate, with the level and text that they are about.
pub data Event : Type 0 where
  log : ℕ → Option Text → Text → Event
  no_log_level : Text → Event
  unknown_level : ℕ → Text → Event
  orphan_cont : ℕ → Text → Event
  buffered_unnecessarily buffered_spuriously : ℕ → Text → Event

pub record State : Type 0 where
  pub disabled : Bool
  pub target : Module
  pub buffered : Option (ℕ × Text)
  pub previous_level : ℕ
  pub is_buffering : Bool
  pub events : List Event

-- `LogOptions::with_logs_enabled`, the field that it sets
unfoldable pub with_logs_enabled : Bool → Bool
with_logs_enabled enabled = not enabled

-- `State::new`
unfoldable pub new : Module → Bool → State
new target disabled = record {
  disabled = disabled;
  target = target;
  buffered = none;
  previous_level = 0;
  is_buffering = false;
  events = [];
}

-- A handler leaves a state, or panics.
pub data Outcome : Type 0 where
  done : State → Outcome
  panic : Outcome

-- whether the text ends with a line feed
unfoldable pub ends_line : Text → Bool
ends_line [] = false
ends_line (c ∷ []) = c == 10
ends_line (c ∷ d ∷ t) = ends_line (d ∷ t)

-- the levels that `meta_for_level` has metadata for; it panics at others
unfoldable pub has_meta : ℕ → Bool
has_meta level = leb level_debug level && leb level level_error

unfoldable pub is_module_byte : ℕ → Bool
is_module_byte c = (leb b'a' c && leb c b'z') || (c == b'_')

-- the number of bytes that `take_while` takes
unfoldable pub module_length : Text → ℕ
module_length [] = 0
module_length (c ∷ t) = let rest = module_length t in if is_module_byte c then suc rest else 0

-- the text of a log with its module, if it begins with a module's name and `: `
unfoldable pub split_module : Module → Text → Option Text × Text
split_module target text =
    let n = module_length text in
    if not (n == 0) && text_eqb (take 2 (drop n text)) (codes ": ")
    then (some (name target ++ (codes "::" ++ take n text)), drop (n + 2) text)
    else (none, text)

unfoldable pub emit : Event → State → State
emit e s = record s { events = s.events ++ (e ∷ []) }

unfoldable pub set_buffered : Option (ℕ × Text) → State → State
set_buffered b s = record s { buffered = b }

unfoldable pub set_buffering : Bool → State → State
set_buffering b s = record s { is_buffering = b }

unfoldable pub set_previous_level : ℕ → State → State
set_previous_level level s = record s { previous_level = level }

unfoldable pub generate_log : ℕ → Text → State → Outcome
generate_log level text s =
    let (sub_module, rest) = split_module s.target text in
    if has_meta level then done (emit (log level sub_module rest) s) else panic

unfoldable pub after : Outcome → (State → Outcome) → Outcome
after (done s) f = f s
after panic f = panic

-- the branches of `cont_buffered_log`
unfoldable pub cont_with : Option (ℕ × Text) → Text → State → Outcome
cont_with (some (level, buffer)) text s =
    if ends_line (buffer ++ text)
    then generate_log level (buffer ++ text) (set_buffering false (set_buffered none s))
    else done (set_buffered (some (level, buffer ++ text)) s)
cont_with none text s =
    done (set_buffered (some (s.previous_level, text)) (emit (orphan_cont s.previous_level text) s))

unfoldable pub cont_buffered_log : Text → State → Outcome
cont_buffered_log text s = cont_with s.buffered text s

-- the message that a new one replaces in the buffer
unfoldable pub replaced : Option (ℕ × Text) → State → Outcome
replaced none s = done s
replaced (some (level, buffer)) s =
    generate_log level buffer (emit (buffered_unnecessarily level buffer) s)

unfoldable pub buffer_non_cont : ℕ → Text → State → Outcome
buffer_non_cont level text s =
    if ends_line text || (level == level_cont)
    then panic
    else after (replaced s.buffered (set_buffered (some (level, text)) s))
        (λ s'. done (set_previous_level level (set_buffering true s')))

-- the message that is flushed before a line
unfoldable pub flushed : Option (ℕ × Text) → State → Outcome
flushed none s = done s
flushed (some (level, buffer)) s =
    generate_log level buffer (emit (buffered_spuriously level buffer) (set_buffered none s))

-- `split_at(text.len() - 1)`
unfoldable pub without_last : Text → Text
without_last [] = []
without_last (c ∷ []) = []
without_last (c ∷ d ∷ t) = c ∷ without_last (d ∷ t)

-- the `match` on the level
unfoldable pub emit_line : ℕ → Text → State → Outcome
emit_line level text s =
    if level == level_none
    then done (emit (no_log_level text) s)
    else (if has_meta level
        then generate_log level text s
        else (if level == level_cont then panic else done (emit (unknown_level level text) s)))

unfoldable pub emit_non_cont_line : ℕ → Text → State → Outcome
emit_non_cont_line level text s =
    if not (ends_line text) || (level == level_cont)
    then panic
    else after (if s.is_buffering then flushed s.buffered (set_buffering false s) else done s)
        (λ s'. emit_line level (without_last text) (set_previous_level level s'))

unfoldable pub update_previous_level_for_disabled_log : ℕ → State → State
update_previous_level_for_disabled_log level s =
    if level == level_cont then s else set_previous_level level s

-- the level that a message counts as: for CONT that of the message before
unfoldable pub effective : ℕ → ℕ → ℕ
effective previous level = if level == level_cont then previous else level

module _ (enabled : ℕ → Bool) where
  -- `is_enabled_for_level`; none where `meta_for_level` panics
  unfoldable pub is_enabled_for_level : ℕ → State → Option Bool
  is_enabled_for_level level s =
      let l = effective s.previous_level level in if has_meta l then some (enabled l) else none

  -- what is done with an enabled message
  unfoldable pub dispatch : ℕ → Text → State → Outcome
  dispatch level text s =
      if level == level_cont
      then cont_buffered_log text s
      else (if ends_line text
          then emit_non_cont_line level text s
          else buffer_non_cont level text s)

  -- the read of the message, where its level is enabled
  unfoldable pub checked : Option Bool → ℕ → List ℕ → State → Outcome
  checked none level bytes s = panic
  checked (some false) level bytes s = done (update_previous_level_for_disabled_log level s)
  checked (some true) level bytes s = dispatch level (to_string_lossy bytes) s

  -- The message is the bytes before the null byte that ends it.
  unfoldable pub logs_to_trace : ℕ → List ℕ → State → Outcome
  logs_to_trace level bytes s =
      if s.disabled then done s else checked (is_enabled_for_level level s) level bytes s

  -- a sequence of messages
  unfoldable pub logs : List (ℕ × List ℕ) → State → Outcome
  logs [] s = done s
  logs ((level, bytes) ∷ rest) s = after (logs_to_trace level bytes s) (logs rest)

-- The two static states, each set once.
pub record Statics : Type 0 where
  pub llama_state : Option State
  pub ggml_state : Option State

-- `get_or_init` with a new state of the module, where the options are the flag `disabled`
unfoldable pub get_or_init : Option State → Module → Bool → State
get_or_init none target disabled = new target disabled
get_or_init (some s) target disabled = s

-- `send_logs_to_tracing`: the states that llama.cpp and ggml are given for the callback
unfoldable pub send_logs_to_tracing : Bool → Statics → Statics
send_logs_to_tracing disabled g = record {
  llama_state = some (get_or_init g.llama_state llama_cpp disabled);
  ggml_state = some (get_or_init g.ggml_state ggml disabled);
}
