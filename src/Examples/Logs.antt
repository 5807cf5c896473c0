-- ===== src/Examples/Logs.antt =====
-- Runs of llama-cpp-2/src/log.rs, with a subscriber that enables every level.
use llama_cpp_rs.Prelude.{
  ℕ, ◌≡◌, ◌↔◌, refl, Bool, true, false, List, [], ◌∷◌, ◌++◌, none, some, arith,
}
use llama_cpp_rs.Log.{
  Module, State, log, done, panic, new, logs, logs_to_trace, checked, is_enabled_for_level,
  effective, has_meta, dispatch, emit_non_cont_line, ends_line, flushed, emit_line, after,
  without_last, generate_log, split_module, module_length, is_module_byte, emit, set_previous_level,
  level_cont,
}
use llama_cpp_rs.Log.Levels.{Unlogged, logs_to_trace-panic_iff}
use llama_cpp_rs.Log.Written.{shown, unlined}
use llama_cpp_rs.Log.History.{Fed, kept, logs-shown}
use llama_cpp_rs.Log.Orphan.{IsIdle, logs-reordered}
use llama_cpp_rs.Prelude.Text.{text_eqb}
use llama_cpp_rs.Prelude.Utf8.{
  to_string_lossy, lossy_from, last_bytes, next_byte, first_byte, begun_by, within, replacement,
}

abbrev all_levels : ℕ → Bool
all_levels level = true

-- After a line of the level info.
abbrev lined : State
lined = record {
  disabled = false;
  target = Module.ggml;
  buffered = none;
  previous_level = 2;
  is_buffering = false;
  events = log 2 none (b'a' ∷ []) ∷ [];
}

logs_to_trace-panic_iff_example :
    (logs_to_trace all_levels 0 (b'b' ∷ 10 ∷ []) lined ≡ panic) ↔ Unlogged 0 lined
logs_to_trace-panic_iff_example =
    logs_to_trace-panic_iff all_levels Module.ggml false ((2, b'a' ∷ 10 ∷ []) ∷ []) lined
      (unfold to_string_lossy lossy_from last_bytes next_byte first_byte logs logs_to_trace new
          checked is_enabled_for_level effective has_meta dispatch emit_non_cont_line ends_line
          flushed emit_line after without_last generate_log split_module module_length
          is_module_byte emit set_previous_level text_eqb in
        refl)
      0 (b'b' ∷ 10 ∷ [])

-- A line in two parts, and one that flushes nothing.
abbrev parts : List (ℕ × List ℕ)
parts = (2, b'a' ∷ []) ∷ (level_cont, b'b' ∷ 10 ∷ []) ∷ (4, b'c' ∷ 10 ∷ []) ∷ []

parts-Fed : Fed all_levels false 0 parts
unfolding ends_line effective has_meta to_string_lossy lossy_from last_bytes next_byte first_byte
parts-Fed =
    (refl, (λ e. ground (arith, e)), (refl, (λ e on. refl), (refl, (λ e. ground (arith, e)), tt)))

logs-shown_example :
    (t : State) × (logs all_levels parts (new Module.ggml false) ≡ done t)
    × (shown t ≡ kept all_levels 0 parts)
logs-shown_example = logs-shown all_levels Module.ggml parts parts-Fed

lined-IsIdle : IsIdle all_levels lined
lined-IsIdle = (refl, refl, refl, unfold has_meta in refl, refl)

-- A character cut off, a byte that begins none, and one that is whole.
to_string_lossy_test :
    to_string_lossy (226 ∷ 130 ∷ 255 ∷ 195 ∷ 169 ∷ 237 ∷ 160 ∷ [])
    ≡ replacement ++ (replacement ++ (195 ∷ 169 ∷ (replacement ++ replacement)))
unfolding to_string_lossy lossy_from last_bytes next_byte first_byte begun_by within
to_string_lossy_test = refl

logs-reordered_example :
    (t : State) × (logs all_levels ((level_cont, b'b' ∷ []) ∷ (3, b'c' ∷ 10 ∷ []) ∷ []) lined
      ≡ done t)
    × (t.buffered ≡ some (2, to_string_lossy (b'b' ∷ [])))
    × (shown t
        ≡ (shown lined ++ unlined (to_string_lossy (b'c' ∷ 10 ∷ [])))
          ++ unlined (to_string_lossy (b'b' ∷ [])))
logs-reordered_example =
    logs-reordered all_levels 3 (b'b' ∷ []) (b'c' ∷ 10 ∷ []) lined lined-IsIdle
      (unfold has_meta in refl) refl
      (unfold ends_line to_string_lossy lossy_from last_bytes next_byte first_byte in refl)
