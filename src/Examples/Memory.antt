-- ===== src/Examples/Memory.antt =====
-- Runs of llama-cpp-2/src/context/kv_cache.rs, over a cache that is a list of cells.
use llama_cpp_rs.Prelude.{
  ◌≡◌, true, ◌&&◌, ◌||◌, none, some, List, [], ◌∷◌, ◌⊎◌, arith, ℤ, int_eqb, int_leb,
}
use llama_cpp_rs.Prelude.Run.{ok}
use llama_cpp_rs.KvCache.{MemoryApi, kv_cache_seq_rm}
use llama_cpp_rs.KvCache.Ranges.{
  Cell, in_raw_range, without_cells, Removes, Refused, kept, kv_cache_seq_rm_exact,
}

-- A cache of which every removal succeeds.
abbrev cells_api : MemoryApi (List Cell)
cells_api = record {
  seq_cp = λ src dest p0 p1 s. s;
  seq_rm = λ seq p0 p1 s. (
    true,
    without_cells (λ c. (int_leb seq (ℤ.negsuc 0) || int_eqb c.seq seq) && in_raw_range p0 p1 c.at)
        s,
  );
  memory_clear = λ both s. [];
  seq_keep = λ seq s. s;
  seq_add = λ seq p0 p1 delta s. s;
  seq_div = λ seq p0 p1 d s. s;
  seq_pos_min = λ seq s. ℤ.negsuc 0;
  seq_pos_max = λ seq s. ℤ.negsuc 0;
}

cells_api-Removes : Removes cells_api
cells_api-Removes = record {
  removes = λ seq p0 p1 cells cells' h. ground (arith, h);
  keeps = λ seq p0 p1 cells cells' h. ground (arith, h);
}

abbrev three_cells : List Cell
three_cells =
    record { seq = ℤ.pos 0; at = 0 }
    ∷ record { seq = ℤ.pos 0; at = 1 }
    ∷ record { seq = ℤ.pos 1; at = 1 }
    ∷ []

kv_cache_seq_rm_exact_example :
    (kv_cache_seq_rm cells_api (ℤ.pos 0) (some 1) none three_cells
      ≡ ok tt (kept (ℤ.pos 0) (some 1) none three_cells))
    ⊎ Refused three_cells (kv_cache_seq_rm cells_api (ℤ.pos 0) (some 1) none three_cells)
kv_cache_seq_rm_exact_example =
    kv_cache_seq_rm_exact cells_api cells_api-Removes (ℤ.pos 0) (some 1) none three_cells
      (omega arith) tt
