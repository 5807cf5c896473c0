-- ===== src/Session.antt =====
-- llama-cpp-2/src/context/session.rs: the state of a context and of a sequence, saved to files and to
-- buffers. What llama.cpp reads and writes is a parameter, over the world `S` that it changes: the
-- context and the files.
pub mod Files
pub mod Buffers
use Prim.Native.Nat.{bit_and, bit_or}
use llama_cpp_rs.Prelude.{
  ℕ, zero, suc, Bool, true, false, not, Option, none, some, List, [], ◌∷◌, length, take, replicate,
  leb, ltb, ◌==◌, if◌then◌else◌, ℤ,
}
use llama_cpp_rs.Prelude.Run.{Run, ok, err, panic, fault, Method, ◌>>=◌, or_throw}

pub record LlamaStateSeqFlags : Type 0 where
  pub bits : ℕ

abbrev pub partial_only : LlamaStateSeqFlags
partial_only = record { bits = 1 }

abbrev pub on_device : LlamaStateSeqFlags
on_device = record { bits = 2 }

-- `empty`, and `default`
unfoldable pub empty : LlamaStateSeqFlags
empty = record { bits = 0 }

unfoldable pub from_bits : ℕ → LlamaStateSeqFlags
from_bits bits = record { bits = bits }

unfoldable pub contains : LlamaStateSeqFlags → LlamaStateSeqFlags → Bool
contains flags other = not (bit_and flags.bits other.bits == 0)

unfoldable pub bitor : LlamaStateSeqFlags → LlamaStateSeqFlags → LlamaStateSeqFlags
bitor flags other = record { bits = bit_or flags.bits other.bits }

-- A path: its bytes, and its text where they are UTF-8.
pub record PathBuf : Type 0 where
  pub bytes : List ℕ
  pub to_str : Option (List ℕ)

-- The position of the first null byte, as `NulError` reports it.
unfoldable pub nul_position : List ℕ → Option ℕ
nul_position [] = none
nul_position (zero ∷ bs) = some 0
nul_position (suc b ∷ bs) = elim (nul_position bs) [ none ↦ none | some i ↦ some (suc i) ]

pub data SaveSeqStateError : Type 0 where
  failed_to_save : SaveSeqStateError
  null_error : ℕ → SaveSeqStateError
  path_to_str_error : PathBuf → SaveSeqStateError

pub data LoadSeqStateError : Type 0 where
  failed_to_load : LoadSeqStateError
  null_error : ℕ → LoadSeqStateError
  path_to_str_error : PathBuf → LoadSeqStateError
  insufficient_max_length : (n_out max_tokens : ℕ) → LoadSeqStateError

pub data SaveSessionError : Type 0 where
  failed_to_save : SaveSessionError
  null_error : ℕ → SaveSessionError
  path_to_str_error : PathBuf → SaveSessionError

pub data LoadSessionError : Type 0 where
  failed_to_load : LoadSessionError
  null_error : ℕ → LoadSessionError
  path_to_str_error : PathBuf → LoadSessionError
  insufficient_max_length : (n_out max_tokens : ℕ) → LoadSessionError

-- `StateSeqError`
pub data StateSeqError : Type 0 where
  size_mismatch : (expected actual : ℕ) → StateSeqError

module _ {S E A : Type 0} where
  -- the path as a C string, or the error of the conversion
  unfoldable pub with_c_string :
      (PathBuf → E) → (ℕ → E) → PathBuf → (List ℕ → Method S E A) → Method S E A
  with_c_string to_str_error nul_error path f =
      or_throw (to_str_error path) path.to_str >>= λ bytes s. elim (nul_position bytes) [
        | some i ↦ err (nul_error i) s
        | none ↦ f bytes s
      ]

-- What a load of llama.cpp returns: the bytes read or the success, the number of tokens that the file
-- has, and the tokens that were written to the buffer.
pub record Loaded (S : Type 0) : Type 0 where
  pub read : ℕ
  pub n_out : ℕ
  pub written : List ℤ
  pub world : S

-- `tokens.set_len(n_out)`, which is undefined where a token was not written
unfoldable pub set_len : {S E A : Type 0} → ℕ → List ℤ → (List ℤ → A) → S → Run S E A
set_len n written f s = if leb n (length written) then ok (f (take n written)) s else fault

module _ {S : Type 0} where
  -- the `if` on a save's success
  unfoldable pub saved : Bool × S → Run S SaveSessionError (Unit {0})
  saved (success, s) = if success then ok tt s else err SaveSessionError.failed_to_save s

  unfoldable pub loaded : ℕ → Loaded S → Run S LoadSessionError (List ℤ)
  loaded max_tokens r =
      if not (r.read == 0)
      then (if ltb max_tokens r.n_out
          then err (LoadSessionError.insufficient_max_length r.n_out max_tokens) r.world
          else set_len r.n_out r.written (λ tokens. tokens) r.world)
      else err LoadSessionError.failed_to_load r.world

  unfoldable pub seq_saved : ℕ × S → Run S SaveSeqStateError ℕ
  seq_saved (bytes_written, s) =
      if bytes_written == 0 then err SaveSeqStateError.failed_to_save s else ok bytes_written s

  unfoldable pub seq_loaded : ℕ → Loaded S → Run S LoadSeqStateError (List ℤ × ℕ)
  seq_loaded max_tokens r =
      if r.read == 0
      then err LoadSeqStateError.failed_to_load r.world
      else (if ltb max_tokens r.n_out
          then err (LoadSeqStateError.insufficient_max_length r.n_out max_tokens) r.world
          else set_len r.n_out r.written (λ tokens. (tokens, r.read)) r.world)

-- llama.cpp's saves take the path and the tokens, its loads the path and the size of the buffer.
pub record FileApi (S : Type 0) : Type 0 where
  pub save_session : List ℕ → List ℤ → S → Bool × S
  pub load_session : List ℕ → ℕ → S → Loaded S
  pub save : List ℕ → List ℤ → S → Bool × S
  pub load : List ℕ → ℕ → S → Loaded S
  pub seq_save : List ℕ → ℤ → List ℤ → S → ℕ × S
  pub seq_load : List ℕ → ℤ → ℕ → S → Loaded S

module _ {S : Type 0} (files : FileApi S) where
  unfoldable pub save_session_file : PathBuf → List ℤ → Method S SaveSessionError (Unit {0})
  save_session_file path tokens =
      with_c_string SaveSessionError.path_to_str_error SaveSessionError.null_error path
        λ bytes s. saved (files.save_session bytes tokens s)

  unfoldable pub load_session_file : PathBuf → ℕ → Method S LoadSessionError (List ℤ)
  load_session_file path max_tokens =
      with_c_string LoadSessionError.path_to_str_error LoadSessionError.null_error path
        λ bytes s. loaded max_tokens (files.load_session bytes max_tokens s)

  unfoldable pub state_save_file : PathBuf → List ℤ → Method S SaveSessionError (Unit {0})
  state_save_file path tokens =
      with_c_string SaveSessionError.path_to_str_error SaveSessionError.null_error path
        λ bytes s. saved (files.save bytes tokens s)

  unfoldable pub state_load_file : PathBuf → ℕ → Method S LoadSessionError (List ℤ)
  state_load_file path max_tokens =
      with_c_string LoadSessionError.path_to_str_error LoadSessionError.null_error path
        λ bytes s. loaded max_tokens (files.load bytes max_tokens s)

  unfoldable pub state_seq_save_file : PathBuf → ℤ → List ℤ → Method S SaveSeqStateError ℕ
  state_seq_save_file path seq_id tokens =
      with_c_string SaveSeqStateError.path_to_str_error SaveSeqStateError.null_error path
        λ bytes s. seq_saved (files.seq_save bytes seq_id tokens s)

  unfoldable pub state_seq_load_file : PathBuf → ℤ → ℕ → Method S LoadSeqStateError (List ℤ × ℕ)
  state_seq_load_file path dest_seq_id max_tokens =
      with_c_string LoadSeqStateError.path_to_str_error LoadSeqStateError.null_error path
        λ bytes s. seq_loaded max_tokens (files.seq_load bytes dest_seq_id max_tokens s)

-- `SeqState`, with its `flags` and its `byte_len`
pub record SeqState : Type 0 where
  pub bytes : List ℕ
  pub flags : LlamaStateSeqFlags

unfoldable pub byte_len : SeqState → ℕ
byte_len state = length state.bytes

-- llama.cpp's copies of the state of a sequence: into a buffer, of which the result says how many bytes
-- were written and what it holds, and from one, of which it says how many bytes were read. Both change
-- the world: a copy that stays on the device replaces the one before.
pub record BufferApi (S : Type 0) : Type 0 where
  pub get_size : ℤ → ℕ → S → ℕ
  pub get_data : List ℕ → ℤ → ℕ → S → ℕ × List ℕ × S
  pub set_data : List ℕ → ℤ → ℕ → S → ℕ × S

module _ {S : Type 0} (buffers : BufferApi S) where
  unfoldable pub state_seq_get_size_ext : ℤ → LlamaStateSeqFlags → S → ℕ
  state_seq_get_size_ext seq_id flags s = buffers.get_size seq_id flags.bits s

  unfoldable pub state_seq_get_data_ext : List ℕ → ℤ → LlamaStateSeqFlags → S → ℕ × List ℕ × S
  state_seq_get_data_ext dest seq_id flags s = buffers.get_data dest seq_id flags.bits s

  unfoldable pub state_seq_set_data_ext : List ℕ → ℤ → LlamaStateSeqFlags → S → Bool × S
  state_seq_set_data_ext src dest_seq_id flags s =
      let (n, s') = buffers.set_data src dest_seq_id flags.bits s in (ltb 0 n, s')

  -- the `if` on the number of bytes written
  unfoldable pub taken : ℕ → LlamaStateSeqFlags → ℕ × List ℕ × S → Run S StateSeqError SeqState
  taken size flags (n, bytes, s) =
      if n == size
      then ok (record { bytes = bytes; flags = flags }) s
      else err (size_mismatch size n) s

  unfoldable pub state_seq_get : ℤ → LlamaStateSeqFlags → Method S StateSeqError SeqState
  state_seq_get seq_id flags s =
      let size = state_seq_get_size_ext seq_id flags s in
      taken size flags (state_seq_get_data_ext (replicate size 0) seq_id flags s)

  -- the `if` on the number of bytes read
  unfoldable pub restored : SeqState → ℕ × S → Run S StateSeqError (Unit {0})
  restored state (n, s) =
      if n == length state.bytes then ok tt s else err (size_mismatch (length state.bytes) n) s

  unfoldable pub state_seq_set : SeqState → ℤ → Method S StateSeqError (Unit {0})
  state_seq_set state seq_id s =
      restored state (buffers.set_data state.bytes seq_id state.flags.bits s)
