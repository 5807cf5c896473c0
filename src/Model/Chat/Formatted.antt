-- ===== src/Model/Chat/Formatted.antt =====
-- model.rs: the formatting of a chat, whose buffer is resized.
use llama_cpp_rs.Prelude.{
  ℕ, ◌*◌, ◌≡◌, ◌<◌, Bool, List, length, length-replicate, take, take-length, drop, replicate, ltb,
  if◌then◌else◌, ℤ, i32_limit, arith, length-take-le, take-eq_of_le, take-append, Bool-cases, inl,
  inr,
}
use llama_cpp_rs.Prelude.Run.{ok, err}
use llama_cpp_rs.Prelude.Text.{Text}
use llama_cpp_rs.Model.{LlamaChatTemplate, LlamaChatMessage}
use llama_cpp_rs.Model.Chat.{
  from_utf8_error, Formatter, message_length, overwritten, resized, finished, formatted_again,
  formatted, apply_chat_template,
}

-- What `llama_chat_apply_template` does: it returns the length of the text, and writes as much of it as
-- the buffer holds.
pub record Formats (formatter : Formatter) : Type 0 where
  pub text : Text → List LlamaChatMessage → Bool → Text
  pub answers :
      (tmpl : Text) (chat : List LlamaChatMessage) (add_ass : Bool) (len : ℕ)
      → formatter tmpl chat add_ass len
        ≡ (ℤ.pos (length (text tmpl chat add_ass)), take len (text tmpl chat add_ass))

module _ {S : Type 0} (is_utf8 : Text → Bool) where
  finished-text :
      (text buff : Text) (s : S)
      → finished is_utf8 (length text) (overwritten buff text) s
        ≡ (if is_utf8 text then ok text s else err from_utf8_error s)
  unfolding finished overwritten
  finished-text text buff s = ground (arith, take-append text (drop (length text) buff))

  -- The formatted chat is given whole, whatever the room of the first buffer, where it is UTF-8 and twice the
  -- length of the messages fits an `i32`.
  pub apply_chat_template-text :
      (formatter : Formatter) (law : Formats formatter) (tmpl : LlamaChatTemplate)
      (chat : List LlamaChatMessage) (add_ass : Bool) (s : S)
      → message_length chat * 2 < i32_limit
      → apply_chat_template is_utf8 formatter tmpl chat add_ass s ≡ (
          if is_utf8 (law.text tmpl.text chat add_ass)
          then ok (law.text tmpl.text chat add_ass) s
          else err from_utf8_error s)
  unfolding apply_chat_template formatted formatted_again
  apply_chat_template-text formatter law tmpl chat add_ass s h =
      let size = message_length chat * 2 in
      let text = law.text tmpl.text chat add_ass in
      let first = law.answers tmpl.text chat add_ass size in
      let again = law.answers tmpl.text chat add_ass (length text) in
      let room = length-replicate {A = ℕ} size 0 in
      elim (Bool-cases (ltb size (length text))) [
        | inr fits ↦
            let whole = take-eq_of_le size text (ground (arith, fits)) in
            ground (arith, first, whole, room, finished-text text (replicate size 0) s)
        | inl short ↦
            let more = resized (overwritten (replicate size 0) (take size text)) (length text) in
            ground (
              arith,
              first,
              again,
              room,
              length-take-le size text,
              take-length text,
              finished-text text more s,
            )
      ]
