-- ===== src/Params/Flags.antt =====
-- model/params.rs: the two flags of the load mode.
use llama_cpp_rs.Prelude.{◌≡◌, ◌≢◌, refl, Bool, true, false, not, ◌&&◌, arith}
use llama_cpp_rs.Params.{
  LoadModes, load_mode_from_flags, LlamaModelParams, set_load_mode, set_no_alloc, use_mmap,
  use_mlock, with_use_mmap, with_use_mlock, with_no_alloc,
}

-- The four modes differ.
pub record AreDistinct (m : LoadModes) : Type 0 where
  pub none_mmap : m.mode_none ≢ m.mode_mmap
  pub none_mlock : m.mode_none ≢ m.mode_mlock
  pub none_both : m.mode_none ≢ m.mode_mmap_mlock
  pub mmap_mlock : m.mode_mmap ≢ m.mode_mlock
  pub mmap_both : m.mode_mmap ≢ m.mode_mmap_mlock
  pub mlock_both : m.mode_mlock ≢ m.mode_mmap_mlock

module _ (m : LoadModes) (law : AreDistinct m) where
  -- The parameters have these flags.
  abbrev pub HasFlags : Bool → Bool → LlamaModelParams → Type 0
  HasFlags mmap mlock p = (use_mmap m p ≡ mmap) × (use_mlock m p ≡ mlock)

  set_load_mode-HasFlags :
      (a b : Bool) (p : LlamaModelParams)
      → HasFlags a b (set_load_mode (load_mode_from_flags m a b) p)
  unfolding set_load_mode load_mode_from_flags use_mmap use_mlock
  set_load_mode-HasFlags false false p =
      ground (arith, law.none_mmap, law.none_mlock, law.none_both)
  set_load_mode-HasFlags true false p = ground (arith, law.mmap_mlock, law.mmap_both)
  set_load_mode-HasFlags false true p = ground (arith, law.mmap_mlock, law.mlock_both)
  set_load_mode-HasFlags true true p = ground (arith, law.mmap_both, law.mlock_both)

  -- Each setter sets its flag and keeps the other, whatever the mode was; and parameters without
  -- allocation do not use mmap, while the flag of mlock stays.
  with_flags-HasFlags :
      (b : Bool) (p : LlamaModelParams)
      → HasFlags b (use_mlock m p) (with_use_mmap m b p)
        × HasFlags (use_mmap m p) b (with_use_mlock m b p)
        × HasFlags (use_mmap m p && not b) (use_mlock m p) (with_no_alloc m b p)
  unfolding with_use_mmap with_use_mlock with_no_alloc
  with_flags-HasFlags false p = (
    set_load_mode-HasFlags false (use_mlock m p) p,
    set_load_mode-HasFlags (use_mmap m p) false p,
    unfold set_no_alloc use_mmap use_mlock in ground arith,
  )
  with_flags-HasFlags true p = (
    set_load_mode-HasFlags true (use_mlock m p) p,
    set_load_mode-HasFlags (use_mmap m p) true p,
    ground (arith, set_load_mode-HasFlags false (use_mlock m p) (set_no_alloc true p), same),
  )
    where
      same : use_mlock m (set_no_alloc true p) ≡ use_mlock m p
      same = unfold set_no_alloc use_mlock in refl
