-- ===== src/Lib.antt =====
-- A verification library of the safe Rust bindings of llama.cpp, the crate in llama-cpp-2/, and of the
-- evidence that the build in llama-cpp-sys-2/ records.
--
-- The program wraps llama.cpp, which is C++ and a git submodule: a context owns a native context of
-- llama.cpp, a batch owns arrays that llama.cpp allocates, and the methods check their arguments,
-- convert them, call llama.cpp and turn what it returns into results. Here each method is a function of
-- the state that it changes, into `Run` (`Prelude.Run`): it returns a value or an error and leaves a
-- state, it panics, or it does what Rust leaves undefined, which is `fault`. What llama.cpp does is a
-- parameter everywhere, a record of functions over a world that they change; where a theorem relies on
-- what it does, a record of laws says so.
--
-- - Prelude: Boolean tests, lists by native numbers, signed integers, `Run`, `Result`, `Utf8`, the lossy
--   reading of bytes, and `Memory`, the arrays behind raw pointers.
-- - Batch (llama-cpp-2/src/llama_batch.rs): `add`, `add_sequence`, `clear`, `new`, `get_one`. Batch.View
--   is the abstract view, a list of entries that a batch shows; Batch.Adding, Batch.Sequence and
--   Batch.Limits are the theorems about it, Batch.Rows the lemmas on the arrays.
-- - HiddenStates (llama-cpp-2/src/context/hidden_states.rs): the errors, the state of a capture and its
--   constructor. HiddenStates.Shape is `batch_shape`, HiddenStates.Name is `layer_from_name`,
--   HiddenStates.Row is `row_offset`, and HiddenStates.Machine is the state machine: `begin`, the
--   callback of the scheduler, `finish`, `unsupported`, `set_enabled` and `take`. The lock of the
--   capture is the field `poisoned`: a panic under the lock poisons it. A callback is one step, so an
--   evaluation is a list of callbacks; HiddenStates.Machine.Reachable has the relation of all steps.
--   HiddenStates.Schedule has the calls that ggml's scheduler makes for the nodes of a graph, a relation
--   after its documentation, HiddenStates.Marking and HiddenStates.Schedule.Marks the slots that they
--   mark, and HiddenStates.Completeness the evaluations that are read out.
-- - Context (llama-cpp-2/src/context.rs): `decode` and `encode` with the capture installed, for which the
--   scheduler's calls and llama.cpp's return code are one `Evaluation`; Context.Logits has the readouts,
--   Context.Lora the adapters, Context.ControlVector the control vector.
-- - KvCache (llama-cpp-2/src/context/kv_cache.rs): the operations on the cache. KvCache.Ranges gives the
--   optional bounds a meaning on a list of cells.
-- - Session (llama-cpp-2/src/context/session.rs): state files (Session.Files) and the state of a sequence
--   in memory (Session.Buffers), with the relation of the worlds in which it stays valid: a copy that
--   stays on the device invalidates those before it.
-- - Backend (llama-cpp-2/src/llama_backend.rs): the process-wide flag, as a relation of steps
--   (Backend.Lifetime), which counts the values that a program writes without an initialisation, and the
--   NUMA strategies (Backend.Numa).
-- - Tokens (llama-cpp-2/src/token/data_array.rs): the array of candidates and its trip through a
--   sampler of llama.cpp. Tokens.Selection is about what is selected after it.
-- - Log (llama-cpp-2/src/log.rs, and `logs_to_trace` of llama-cpp-2/src/lib.rs): the callback that makes
--   events of llama.cpp's messages, with its buffer for a line that comes in parts. A message is bytes, which
--   Prelude.Utf8 reads as `to_string_lossy` does. A state keeps the events that it has sent. Log.Written gives a state the text that its logs show, Log.Handlers and Log.Complete follow
--   a message, Log.History a sequence of them; Log.Levels and Log.Orphan are about panics and about a
--   continuation without a message.
-- - Model (llama-cpp-2/src/model.rs): Model.Pieces the bytes of tokens, Model.Tokenize, Model.Metadata, and
--   Model.Chat the calls that ask llama.cpp again with a larger buffer, whose functions are parameters;
--   Model.Loading the loading of a model and the new contexts, with the capture of hidden states. The
--   theorems are in Model.Pieces.Whole, Model.Tokenize.Complete, Model.Metadata.Ends, Model.Chat.Formatted
--   and Model.Loading.Fresh.
-- - Params (llama-cpp-2/src/model/params.rs, llama-cpp-2/src/model/params/kv_overrides.rs,
--   llama-cpp-2/src/context/params.rs and llama-cpp-2/src/context/params/get_set.rs): Params.Flags,
--   Params.Devices, Params.Overrides and Params.Splits for the parameters of a model, Params.Contexts for
--   those of a context, with the numbers of the types of ggml as a record.
-- - Multimodal (llama-cpp-2/src/mtmd.rs): bitmaps, for which the overflow checks of the build are an
--   argument, and Multimodal.Chunks, collections and chunks with the addresses that are alive.
-- - Evidence (llama-cpp-sys-2/build_evidence.rs): what a build records of its native artifacts.
--   Evidence.Names checks their names, Evidence.Features the features, Evidence.Files hashes a file,
--   Evidence.Collection collects the artifacts and Evidence.Digest hashes the record; Evidence.Ggml reads
--   CMake's cache. Evidence.Order has Rust's ordered maps. The build script is their only client.
-- - Examples: the theorems at concrete inputs, and runs of the models.
--
-- Integers are natural numbers or `ℤ` with the limits of `i32`, `u32` and a `usize` of 64 bits written
-- out where the code converts or can overflow. Floating-point numbers are a type parameter with the test
-- for finiteness. An allocation that can fail asks a `Reserve`. Texts are lists of bytes; whether bytes
-- are UTF-8 is a parameter, but for the messages of logs, which are decoded. Debug assertions are checked in Log, Model.Metadata and Model.Loading. The levels
-- of logs have llama.cpp's numbers; its other constants are parameters.
--
-- Most loops are recursions on a list or on the number of their rounds. Two need fuel: the loop that reads a
-- file (Evidence.Files), for which a fuel above the length of the file is enough, and the search for a buffer
-- (Model.Metadata), for which one above 2^31 less the first capacity is; out of fuel both return an error of
-- their own, `unfinished`. The loops that print a number or trim a text are bounded by its size.
--
-- Not modelled: sampling, timings, speculative decoding and GGUF; of multimodal input the encoding of a
-- chunk and the ids; of the parameters of a model `fit_params` and the callbacks; the build scripts but for
-- the evidence; and the C and C++ wrappers. Messages of `tracing` outside of Log and of panics are left out,
-- and so are methods that only pass their arguments on to llama.cpp.
pub mod Prelude
pub mod Batch
pub mod HiddenStates
pub mod Context
pub mod KvCache
pub mod Session
pub mod Backend
pub mod Tokens
pub mod Evidence
pub mod Log
pub mod Model
pub mod Params
pub mod Multimodal
mod Examples
