-- ===== src/Model/Chat.antt =====
-- llama-cpp-2/src/model.rs: `chat_template` and `apply_chat_template`. The templates of the model and
-- the formatting of messages are parameters.
pub mod Formatted
use llama_cpp_rs.Prelude.{
  ℕ, zero, suc, ◌+◌, ◌*◌, Bool, true, false, not, List, [], ◌∷◌, ◌++◌, Option, none, some, length,
  take, drop, replicate, leb, ltb, ◌==◌, if◌then◌else◌, ℤ, i32_limit,
}
use llama_cpp_rs.Prelude.Run.{Run, ok, err, panic, fault, Method, ◌>>=◌}
use llama_cpp_rs.Prelude.Text.{Text}
use llama_cpp_rs.Prelude.Result
use llama_cpp_rs.Model.{c_string, LlamaChatTemplate, LlamaChatMessage}

pub data ChatTemplateError : Type 0 where
  missing_template : ChatTemplateError
  null_error : ℕ → ChatTemplateError

pub data ApplyChatTemplateError : Type 0 where
  from_utf8_error : ApplyChatTemplateError
  ffi_error : ℤ → ApplyChatTemplateError

-- The pointer that is passed for a name. A name that is a C string is moved into the case of the `match`
-- and freed at its end, so its pointer dangles.
pub data NamePointer : Type 0 where
  null dangling : NamePointer

unfoldable pub name_ptr : Option Text → NamePointer
name_ptr none = null
name_ptr (some name) = elim (c_string name) [ Result.ok text ↦ dangling | Result.err i ↦ null ]

-- what is made of the template that llama.cpp returns
unfoldable pub template_of :
    {S : Type 0} → Option Text → Method S ChatTemplateError LlamaChatTemplate
template_of none s = err missing_template s
template_of (some text) s = elim (c_string text) [
  | Result.ok t ↦ ok (record { text = t }) s
  | Result.err i ↦ err (null_error i) s
]

-- `chat_template`, for a model with the given default template; a read through a pointer that dangles is undefined
unfoldable pub chat_template :
    {S : Type 0}
    → (default_template : Option Text) → Option Text
    → Method S ChatTemplateError LlamaChatTemplate
chat_template default_template name s = elim (name_ptr name) [
  | null ↦ template_of default_template s
  | dangling ↦ fault
]

-- `llama_chat_apply_template`: what it returns and the bytes that it writes, for the length of the buffer.
abbrev pub Formatter : Type 0
Formatter = Text → List LlamaChatMessage → Bool → ℕ → ℤ × Text

unfoldable pub message_length : List LlamaChatMessage → ℕ
message_length [] = 0
message_length (c ∷ chat) = (length c.role + length c.content) + message_length chat

-- the buffer after a call
unfoldable pub overwritten : Text → Text → Text
overwritten buff written = written ++ drop (length written) buff

-- `resize(len, 0)` of a shorter buffer
unfoldable pub resized : Text → ℕ → Text
resized buff len = take len (buff ++ replicate len 0)

-- `truncate` and `String::from_utf8`
unfoldable pub finished :
    {S : Type 0} → (Text → Bool) → ℕ → Text → Method S ApplyChatTemplateError Text
finished is_utf8 res buff s =
    if is_utf8 (take res buff) then ok (take res buff) s else err from_utf8_error s

-- the second call, on a buffer of `len` bytes
unfoldable pub formatted_again :
    {S : Type 0} → (Text → Bool) → ℕ → Text → ℤ × Text → Method S ApplyChatTemplateError Text
formatted_again is_utf8 len buff (ℤ.negsuc n, written) s = err (ffi_error (ℤ.negsuc n)) s
formatted_again is_utf8 len buff (ℤ.pos res, written) s =
    if ltb len (length written)
    then fault
    else (if res == len then finished is_utf8 len (overwritten buff written) s else panic)

-- from the first call's result on; `again` is the call with a buffer of the given length
unfoldable pub formatted :
    {S : Type 0}
    → (Text → Bool)
    → (ℕ → ℤ × Text)
    → Text
    → ℤ × Text
    → Method S ApplyChatTemplateError Text
formatted is_utf8 again buff (ℤ.negsuc n, written) s = err (ffi_error (ℤ.negsuc n)) s
formatted is_utf8 again buff (ℤ.pos res, written) s =
    if ltb (length buff) (length written)
    then fault
    else (if ltb (length buff) res
        then formatted_again is_utf8 res (resized (overwritten buff written) res) (again res) s
        else finished is_utf8 res (overwritten buff written) s)

unfoldable pub apply_chat_template :
    {S : Type 0}
    → (Text → Bool)
    → Formatter
    → LlamaChatTemplate
    → List LlamaChatMessage
    → Bool
    → Method S ApplyChatTemplateError Text
apply_chat_template is_utf8 formatter tmpl chat add_ass s =
    let size = message_length chat * 2 in
    if ltb size i32_limit
    then formatted is_utf8 (formatter tmpl.text chat add_ass) (replicate size 0)
        (formatter tmpl.text chat add_ass size) s
    else panic
