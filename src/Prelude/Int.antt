-- ===== src/Prelude/Int.antt =====
-- Signed integers over the native numbers, and the conversions between Rust's integer types.
use Prim.Native.Nat.{ℕ, ◌^◌}
use mathlib.Core.Path.{◌≡◌}
use mathlib.Core.Logic.{◌↔◌}
use mathlib.Core.Bool.{Bool, true, false}
use mathlib.Core.Option.{Option, none, some}
use native.Mathlib.Omega.{arith}
use llama_cpp_rs.Prelude.Tests.{ltb, leb, ◌==◌, if◌then◌else◌}

-- `negsuc n` is -(n + 1).
pub data ℤ : Type 0 where
  pos : ℕ → ℤ
  negsuc : ℕ → ℤ

abbrev pub int_eqb : ℤ → ℤ → Bool
int_eqb (ℤ.pos a) (ℤ.pos b) = a == b
int_eqb (ℤ.negsuc a) (ℤ.negsuc b) = a == b
int_eqb (ℤ.pos a) (ℤ.negsuc b) = false
int_eqb (ℤ.negsuc a) (ℤ.pos b) = false

abbrev pub int_leb : ℤ → ℤ → Bool
int_leb (ℤ.pos a) (ℤ.pos b) = leb a b
int_leb (ℤ.negsuc a) (ℤ.negsuc b) = leb b a
int_leb (ℤ.pos a) (ℤ.negsuc b) = false
int_leb (ℤ.negsuc a) (ℤ.pos b) = true

pub int_eqb_iff : (a b : ℤ) → (int_eqb a b ≡ true) ↔ (a ≡ b)
int_eqb_iff (ℤ.pos a) (ℤ.pos b) = ground arith
int_eqb_iff (ℤ.negsuc a) (ℤ.negsuc b) = ground arith
int_eqb_iff (ℤ.pos a) (ℤ.negsuc b) = ground arith
int_eqb_iff (ℤ.negsuc a) (ℤ.pos b) = ground arith

-- The number of values of an `i32` that are not negative.
abbrev pub i32_limit : ℕ
i32_limit = 2 ^ 31

abbrev pub u32_limit : ℕ
u32_limit = 2 ^ 32

abbrev pub usize_limit : ℕ
usize_limit = 2 ^ 64

-- `i32::try_from` of an unsigned number.
abbrev pub to_i32 : ℕ → Option ℤ
to_i32 n = if ltb n i32_limit then some (ℤ.pos n) else none

-- `usize::try_from` of a signed number, which fits when it is not negative.
abbrev pub to_usize : ℤ → Option ℕ
to_usize (ℤ.pos n) = some n
to_usize (ℤ.negsuc n) = none
