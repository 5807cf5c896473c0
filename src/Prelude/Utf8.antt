-- ===== src/Prelude/Utf8.antt =====
-- `CStr::to_string_lossy` of Rust's standard library: bytes read as UTF-8, where each longest beginning
-- of a character that nothing completes, and each byte that begins none, becomes U+FFFD.
use Prim.Native.Nat.{ℕ, ◌-◌}
use mathlib.Core.Path.{◌≡◌, refl, ap}
use mathlib.Core.Bool.{Bool, true, ◌&&◌}
use mathlib.Core.List.{List, [], ◌∷◌, ◌++◌}
use mathlib.Core.Option.{Option, none, some}
use llama_cpp_rs.Prelude.Tests.{ltb, leb, ◌==◌, if◌then◌else◌}
use llama_cpp_rs.Prelude.Text.{Text}
use llama_cpp_rs.Prelude.Lists.{All}

-- A character that has begun: its bytes so far, the range of the next one, and how many are missing.
pub record Begun : Type 0 where
  pub bytes : List ℕ
  pub lowest : ℕ
  pub highest : ℕ
  pub missing : ℕ

-- U+FFFD
abbrev pub replacement : Text
replacement = 239 ∷ 191 ∷ 189 ∷ []

unfoldable pub within : ℕ → ℕ → ℕ → Bool
within lowest highest b = leb lowest b && leb b highest

abbrev begun : ℕ → ℕ → ℕ → ℕ → Option Begun
begun b lowest highest missing =
    some (record { bytes = b ∷ []; lowest = lowest; highest = highest; missing = missing })

-- the character that a byte above 127 begins
unfoldable pub begun_by : ℕ → Option Begun
begun_by b =
    if within 194 223 b
    then begun b 128 191 1
    else (if b == 224
        then begun b 160 191 2
        else (if b == 237
            then begun b 128 159 2
            else (if within 225 239 b
                then begun b 128 191 2
                else (if b == 240
                    then begun b 144 191 3
                    else (if within 241 243 b
                        then begun b 128 191 3
                        else (if b == 244 then begun b 128 143 3 else none))))))

-- a byte where no character is open: what is written, and the character that it opens
unfoldable pub first_byte : ℕ → Text × Option Begun
first_byte b =
    if ltb b 128
    then (b ∷ [], none)
    else elim (begun_by b) [ none ↦ (replacement, none) | some q ↦ ([], some q) ]

unfoldable pub next_byte : Option Begun → ℕ → Text × Option Begun
next_byte none b = first_byte b
next_byte (some q) b =
    if within q.lowest q.highest b
    then (if q.missing == 1 then (q.bytes ++ (b ∷ []), none) else (
      [],
      some (record {
        bytes = q.bytes ++ (b ∷ []);
        lowest = 128;
        highest = 191;
        missing = q.missing - 1;
      }),
    ))
    else (replacement ++ (first_byte b).0, (first_byte b).1)

-- the end of the bytes
unfoldable pub last_bytes : Option Begun → Text
last_bytes none = []
last_bytes (some q) = replacement

unfoldable pub lossy_from : Option Begun → List ℕ → Text
lossy_from q [] = last_bytes q
lossy_from q (b ∷ bs) = let (written, q') = next_byte q b in written ++ lossy_from q' bs

unfoldable pub to_string_lossy : List ℕ → Text
to_string_lossy bytes = lossy_from none bytes

-- ASCII is read as it is.
to_string_lossy_ascii :
    (bytes : List ℕ) → All (λ b. ltb b 128 ≡ true) bytes → to_string_lossy bytes ≡ bytes
unfolding to_string_lossy lossy_from last_bytes next_byte first_byte
to_string_lossy_ascii [] h = refl
to_string_lossy_ascii (b ∷ bs) (e, h) = rw e (ap (λ t. b ∷ t) (to_string_lossy_ascii bs h))
