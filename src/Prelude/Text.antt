-- ===== src/Prelude/Text.antt =====
-- Texts as lists of bytes: their comparison, and their search, as Rust's `str` and `[u8]` do them.
use Prim.Native.Char.{code}
use Prim.Native.Nat.{ℕ, zero, suc, ◌+◌, ◌/◌, ◌%◌}
use Prim.Native.String.{String}
use mathlib.Core.Path.{◌≡◌, refl}
use mathlib.Core.Logic.{◌≢◌, ◌↔◌}
use mathlib.Core.Bool.{Bool, true, false, ◌&&◌, ◌||◌}
use mathlib.Core.List.{List, [], ◌∷◌, ◌++◌}
use mathlib.Core.Option.{Option, none, some}
use native.Mathlib.Omega.{arith}
use llama_cpp_rs.Prelude.Tests.{ltb, ◌==◌, ==_iff, if◌then◌else◌}

abbrev pub Text : Type 0
Text = List ℕ

-- The bytes of a literal.
abbrev pub codes : String → Text
codes String.[] = []
codes (String.◌∷◌ c s) = code c ∷ codes s

unfoldable pub text_eqb : Text → Text → Bool
text_eqb [] [] = true
text_eqb [] (y ∷ ys) = false
text_eqb (x ∷ xs) [] = false
text_eqb (x ∷ xs) (y ∷ ys) = (x == y) && text_eqb xs ys

pub text_eqb_iff : (xs ys : Text) → (text_eqb xs ys ≡ true) ↔ (xs ≡ ys)
unfolding text_eqb
text_eqb_iff [] [] = ground arith
text_eqb_iff [] (y ∷ ys) = ground arith
text_eqb_iff (x ∷ xs) [] = ground arith
text_eqb_iff (x ∷ xs) (y ∷ ys) = ground (arith, text_eqb_iff xs ys, ==_iff x y)

-- `<` on strings, byte by byte
unfoldable pub text_ltb : Text → Text → Bool
text_ltb xs [] = false
text_ltb [] (y ∷ ys) = true
text_ltb (x ∷ xs) (y ∷ ys) = ltb x y || ((x == y) && text_ltb xs ys)

pub text_ltb_irrefl : (xs : Text) → text_ltb xs xs ≡ false
unfolding text_ltb
text_ltb_irrefl [] = refl
text_ltb_irrefl (x ∷ xs) = ground (arith, text_ltb_irrefl xs)

pub text_ltb_trans :
    (xs ys zs : Text) → text_ltb xs ys ≡ true → text_ltb ys zs ≡ true → text_ltb xs zs ≡ true
unfolding text_ltb
text_ltb_trans [] [] zs p q = ground arith
text_ltb_trans (x ∷ xs) [] zs p q = ground arith
text_ltb_trans [] (y ∷ ys) [] p q = ground arith
text_ltb_trans [] (y ∷ ys) (z ∷ zs) p q = ground arith
text_ltb_trans (x ∷ xs) (y ∷ ys) [] p q = ground arith
text_ltb_trans (x ∷ xs) (y ∷ ys) (z ∷ zs) p q = ground (arith, text_ltb_trans xs ys zs)

pub text_ltb_total : (xs ys : Text) → text_ltb xs ys ≡ false → text_ltb ys xs ≡ false → xs ≡ ys
unfolding text_ltb
text_ltb_total [] [] p q = refl
text_ltb_total [] (y ∷ ys) p q = ground arith
text_ltb_total (x ∷ xs) [] p q = ground arith
text_ltb_total (x ∷ xs) (y ∷ ys) p q = ground (arith, text_ltb_total xs ys)

unfoldable pub starts_with : Text → Text → Bool
starts_with xs [] = true
starts_with [] (y ∷ ys) = false
starts_with (x ∷ xs) (y ∷ ys) = (x == y) && starts_with xs ys

-- Whether `xs` is `s`, or a tail of it is.
unfoldable pub ends_with : Text → Text → Bool
ends_with [] s = text_eqb [] s
ends_with (x ∷ xs) s = text_eqb (x ∷ xs) s || ends_with xs s

-- `split(c)`: the parts before, between and after the bytes `c`
unfoldable pub cons_head : ℕ → List Text → List Text
cons_head x [] = (x ∷ []) ∷ []
cons_head x (p ∷ ps) = (x ∷ p) ∷ ps

unfoldable pub split : ℕ → Text → List Text
split c [] = [] ∷ []
split c (x ∷ xs) = let ps = split c xs in if x == c then [] ∷ ps else cons_head x ps

-- `split_once(c)`: the text before the first byte `c`, and the text after it
unfoldable pub split_once : ℕ → Text → Option (Text × Text)
split_once c [] = none
split_once c (x ∷ xs) =
    let rest = split_once c xs in
    if x == c
    then some ([], xs)
    else elim rest [ none ↦ none | some (before, after) ↦ some (x ∷ before, after) ]

-- `join(c)` with a separator of one byte
unfoldable pub join : ℕ → List Text → Text
join c [] = []
join c (p ∷ []) = p
join c (p ∷ q ∷ ps) = p ++ (c ∷ join c (q ∷ ps))

-- The digits of `Display for usize`; the fuel bounds their number.
unfoldable pub digits : ℕ → ℕ → Text
digits zero n = (48 + n) ∷ []
digits (suc fuel) n =
    let rest = digits fuel (n / 10) in
    if ltb n 10 then (48 + n) ∷ [] else rest ++ ((48 + n % 10) ∷ [])

unfoldable pub to_string : ℕ → Text
to_string n = digits n n

-- No byte of the text is `c`.
abbrev pub Free : ℕ → Text → Type 0
Free c [] = Unit
Free c (x ∷ xs) = (x ≢ c) × Free c xs

-- Two texts that end at their first `c`, with what follows, are equal part by part.
pub Free-cut :
    (c : ℕ) (xs ys r s : Text)
    → Free c xs
    → Free c ys
    → (xs ++ (c ∷ r)) ≡ (ys ++ (c ∷ s))
    → (xs ≡ ys) × (r ≡ s)
Free-cut c [] [] r s f g e = ground arith
Free-cut c [] (y ∷ ys) r s f g e = ground arith
Free-cut c (x ∷ xs) [] r s f g e = ground arith
Free-cut c (x ∷ xs) (y ∷ ys) r s f g e = ground (arith, Free-cut c xs ys r s)
