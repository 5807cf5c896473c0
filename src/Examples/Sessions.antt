-- ===== src/Examples/Sessions.antt =====
-- Runs of llama-cpp-2/src/context/session.rs, over a disk that holds one file of tokens.
use llama_cpp_rs.Prelude.{
  ℕ, suc, ◌<◌, ◌≡◌, refl, ap, true, some, List, [], ◌∷◌, arith, ℤ, length, leb, if◌then◌else◌,
}
use llama_cpp_rs.Prelude.Run.{ok}
use llama_cpp_rs.Session.{
  LlamaStateSeqFlags, on_device, PathBuf, nul_position, with_c_string, Loaded, saved, FileApi,
  state_save_file, state_load_file, BufferApi, SeqState, byte_len, state_seq_get,
  state_seq_get_size_ext, state_seq_get_data_ext, taken, state_seq_set,
}
use llama_cpp_rs.Session.Files.{Keeps, state_save_file-load}
use llama_cpp_rs.Session.Buffers.{Later, Serializes, state_seq_get-set}

abbrev Disk : Type 0
Disk = List ℤ

-- A load into a buffer that the file fits in.
abbrev read_file : ℕ → Disk → Loaded Disk
read_file max_tokens disk = record {
  read = if leb (length disk) max_tokens then 1 else 0;
  n_out = length disk;
  written = disk;
  world = disk;
}

abbrev disk_api : FileApi Disk
disk_api = record {
  save_session = λ bytes tokens disk. (true, tokens);
  load_session = λ bytes n disk. read_file n disk;
  save = λ bytes tokens disk. (true, tokens);
  load = λ bytes n disk. read_file n disk;
  seq_save = λ bytes seq tokens disk. (1, tokens);
  seq_load = λ bytes seq n disk. read_file n disk;
}

disk_api-Keeps : Keeps disk_api
disk_api-Keeps = record {
  keeps = λ bytes tokens n s s' h l. (ground (arith, h, l), ground (arith, h), ground (arith, h));
}

abbrev path : List ℕ → PathBuf
path bytes = record { bytes = bytes; to_str = some bytes }

saved_lem : state_save_file disk_api (path (97 ∷ [])) (ℤ.pos 1 ∷ []) [] ≡ ok tt (ℤ.pos 1 ∷ [])
unfolding state_save_file with_c_string nul_position saved
saved_lem = refl

state_save_file-load_example :
    state_load_file disk_api (path (97 ∷ [])) 4 (ℤ.pos 1 ∷ []) ≡ ok (ℤ.pos 1 ∷ []) (ℤ.pos 1 ∷ [])
unfolding nul_position
state_save_file-load_example =
    state_save_file-load disk_api (ℤ.pos 1 ∷ []) 4 (path (97 ∷ [])) (97 ∷ []) [] (ℤ.pos 1 ∷ [])
      disk_api-Keeps (refl, refl) (omega arith) saved_lem

-- A context whose sequences all have the state of three zeros, and which counts the copies.
abbrev zero_api : BufferApi ℕ
zero_api = record {
  get_size = λ seq flags s. 3;
  get_data = λ dest seq flags s. (length dest, dest, suc s);
  set_data = λ bytes seq flags s. (length bytes, s);
}

abbrev Counted : ℕ → ℕ → Type 0
Counted s t = s ≡ t

before_next : (s t : ℕ) → suc s ≡ t → s < t
before_next s t h = omega arith

before_same : (s t t' : ℕ) → s < t → t ≡ t' → s < t'
before_same s t t' h e = omega arith

abbrev zero_api-Serializes : Serializes zero_api Counted
zero_api-Serializes = record {
  in_place = λ dest seq flags s. refl;
  restore = λ seq flags s dest_seq t. t;
  Holds = λ seq flags s bytes t. s < t;
  copied = λ seq flags s s' bytes h. before_next s s' (ap (λ p. p.2) h);
  kept_by_get = λ seq flags s t bytes dest q f h valid. omega arith;
  kept_by_set = λ seq flags s t bytes src q f h. h;
  kept_elsewhere = λ seq flags s t t' bytes h e. before_same s t t' h e;
  reads = λ seq dest_seq flags s t bytes h. refl;
}

abbrev three_zeros : SeqState
three_zeros = record { bytes = 0 ∷ 0 ∷ 0 ∷ []; flags = on_device }

three_zeros_lem : state_seq_get zero_api (ℤ.pos 0) on_device 8 ≡ ok three_zeros 9
unfolding state_seq_get state_seq_get_size_ext state_seq_get_data_ext taken
three_zeros_lem = refl

-- another copy that stays on the device, of another sequence
copied_on : Later zero_api Counted (ℤ.pos 0) on_device 9 10
copied_on = Later.got 9 [] (ℤ.pos 1) on_device Later.now (λ (_, _, e). ground (arith, e))

state_seq_get-set_example :
    (byte_len three_zeros ≡ 3)
    × (◌≡◌ {A = LlamaStateSeqFlags} on_device on_device)
    × (state_seq_set zero_api three_zeros (ℤ.pos 1) 10 ≡ ok tt 10)
state_seq_get-set_example =
    state_seq_get-set zero_api Counted zero_api-Serializes (ℤ.pos 0) (ℤ.pos 1) on_device 8 9 10
      three_zeros three_zeros_lem copied_on
