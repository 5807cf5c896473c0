-- ===== src/HiddenStates/Name/Exact.antt =====
-- `layer_from_name` and the names `l_out-N`, with `N` in decimal and no leading zero.
use llama_cpp_rs.Prelude.{
  ℕ, ◌+◌, ◌*◌, ◌≤◌, ◌<◌, ◌≡◌, refl, true, false, none, some, List, [], ◌∷◌, ◌++◌, map, ltb, length,
  if◌then◌else◌, ℤ, int_eqb, int_eqb_iff, u32_limit, arith, All, Bool-cases, Option-cases, inl, inr,
}
use llama_cpp_rs.HiddenStates.Name.{
  until_nul, prefix, zip_eqb, digit_of, push_digit, fold_digits, padded, layer_of, layer_from_name,
  checked_u32,
}

-- The number that a list of decimal digits denotes, behind the digits of `v`.
abbrev pub value_from : ℕ → List ℕ → ℕ
value_from v [] = v
value_from v (d ∷ ds) = value_from (v * 10 + d) ds

-- Decimal digits, one at least, with no zero in front of others.
abbrev pub IsCanonical : List ℕ → Type 0
IsCanonical [] = ⊥
IsCanonical (d ∷ []) = d ≤ 9
IsCanonical (d ∷ e ∷ es) = (d ≤ 9) × (0 < d) × All (λ x. x ≤ 9) (e ∷ es)

abbrev pub ascii : ℕ → ℤ
ascii d = ℤ.pos (48 + d)

-- The name of the residual of a layer, as an array with its NUL and what stands behind it.
abbrev pub named : List ℕ → List ℤ → List ℤ
named ds rest = prefix ++ map ascii ds ++ ℤ.pos 0 ∷ rest

until_nul-digits :
    (ds : List ℕ) (rest : List ℤ) → until_nul (map ascii ds ++ ℤ.pos 0 ∷ rest) ≡ some (map ascii ds)
unfolding until_nul
until_nul-digits [] rest = refl
until_nul-digits (d ∷ ds) rest = ground (arith, until_nul-digits ds rest)

until_nul-named :
    (ds : List ℕ) (rest : List ℤ) → until_nul (named ds rest) ≡ some (prefix ++ map ascii ds)
unfolding until_nul
until_nul-named ds rest = ground (arith, until_nul-digits ds rest)

value_from-ge : (v : ℕ) (ds : List ℕ) → v ≤ value_from v ds
value_from-ge v [] = omega arith
value_from-ge v (d ∷ ds) = omega (arith, value_from-ge (v * 10 + d) ds)

fold_digits_lem :
    (v : ℕ) (ds : List ℕ)
    → v < u32_limit
    → All (λ x. x ≤ 9) ds
    → fold_digits v (map ascii ds) ≡ checked_u32 (value_from v ds)
unfolding fold_digits push_digit digit_of
fold_digits_lem v [] h a = ground arith
fold_digits_lem v (d ∷ ds) h (le, a) =
    ground (arith, value_from-ge (v * 10 + d) ds, fold_digits_lem (v * 10 + d) ds)

All_of_IsCanonical : (ds : List ℕ) → IsCanonical ds → All (λ x. x ≤ 9) ds
All_of_IsCanonical [] h = absurd h
All_of_IsCanonical (d ∷ []) h = (h, tt)
All_of_IsCanonical (d ∷ e ∷ es) (h, p, a) = (h, a)

padded-ascii : (ds : List ℕ) → IsCanonical ds → padded (map ascii ds) ≡ false
unfolding padded
padded-ascii [] h = absurd h
padded-ascii (d ∷ []) h = refl
padded-ascii (d ∷ e ∷ es) h = ground arith

-- The name of the layer that canonical digits denote is read as that layer if a `u32` holds it, and as
-- none otherwise, whatever stands behind the NUL.
pub layer_from_name-named :
    (ds : List ℕ) (rest : List ℤ)
    → IsCanonical ds
    → layer_from_name (named ds rest)
      ≡ (if ltb (value_from 0 ds) u32_limit then some (value_from 0 ds) else none)
unfolding layer_from_name layer_of zip_eqb
layer_from_name-named [] rest h = absurd h
layer_from_name-named (d ∷ ds) rest h =
    rw (until_nul-named (d ∷ ds) rest, padded-ascii (d ∷ ds) h)
      (ground (arith, fold_digits_lem 0 (d ∷ ds) (omega arith) (All_of_IsCanonical (d ∷ ds) h)))

until_nul_inv :
    (cs : List ℤ) (name : List ℤ)
    → until_nul cs ≡ some name
    → (rest : List ℤ) × (cs ≡ name ++ ℤ.pos 0 ∷ rest)
unfolding until_nul
until_nul_inv [] name h = cc
until_nul_inv (c ∷ cs) name h = elim (Bool-cases (int_eqb c (ℤ.pos 0))) [
  | inl e ↦ (cs, ground (arith, int_eqb_iff c (ℤ.pos 0)))
  | inr e ↦ elim (Option-cases (until_nul cs)) [
    | inl p ↦ ground arith
    | inr (tl, p) ↦ let (rest, q) = until_nul_inv cs tl p in (rest, ground arith)
  ]
]

zip_eqb_inv :
    (name : List ℤ)
    → zip_eqb name prefix ≡ true
    → length prefix < length name
    → (c : ℤ) × (cs : List ℤ) × (name ≡ prefix ++ c ∷ cs)
unfolding zip_eqb
zip_eqb_inv (a ∷ b ∷ c ∷ d ∷ e ∷ f ∷ x ∷ xs) h l = (x, xs, ground (arith))
zip_eqb_inv name h l = absurd (omega arith)

digit_of_inv : (c : ℤ) (d : ℕ) → digit_of c ≡ some d → (c ≡ ascii d) × (d ≤ 9)
unfolding digit_of
digit_of_inv (ℤ.negsuc n) d h = cc
digit_of_inv (ℤ.pos n) d h = ground arith

push_digit_inv :
    (v : ℕ) (c : ℤ) (w : ℕ)
    → push_digit v c ≡ some w
    → (d : ℕ) × (c ≡ ascii d) × (d ≤ 9) × (w ≡ v * 10 + d) × (w < u32_limit)
unfolding push_digit
push_digit_inv v c w h = elim (Option-cases (digit_of c)) [
  | inl e ↦ ground arith
  | inr (d, e) ↦ let (p, q) = digit_of_inv c d e in (d, p, q, ground arith, ground arith)
]

fold_digits_inv :
    (v : ℕ) (cs : List ℤ) (n : ℕ)
    → v < u32_limit
    → fold_digits v cs ≡ some n
    → (ds : List ℕ) × (cs ≡ map ascii ds)
      × All (λ x. x ≤ 9) ds
      × (n ≡ value_from v ds)
      × (n < u32_limit)
unfolding fold_digits
fold_digits_inv v [] n s h = ([], refl, tt, ground arith, ground arith)
fold_digits_inv v (c ∷ cs) n s h = elim (Option-cases (push_digit v c)) [
  | inl e ↦ ground arith
  | inr (w, e) ↦
      let (d, p, le, q, small) = push_digit_inv v c w e in
      let (ds, p', a, q', small') = fold_digits_inv w cs n small (ground arith) in
      (d ∷ ds, cc, (le, a), ground arith, small')
]

IsCanonical-of_padded :
    (ds : List ℕ)
    → All (λ x. x ≤ 9) ds
    → padded (map ascii ds) ≡ false
    → 0 < length (map ascii ds)
    → IsCanonical ds
unfolding padded
IsCanonical-of_padded [] a h l = elim l [ ]
IsCanonical-of_padded (d ∷ []) a h l = a.0
IsCanonical-of_padded (d ∷ e ∷ es) (le, a) h l = (le, ground arith, a)

digits_of_name :
    (cs : List ℤ) (n : ℕ)
    → fold_digits 0 cs ≡ some n
    → padded cs ≡ false
    → 0 < length cs
    → (ds : List ℕ) × IsCanonical ds × (cs ≡ map ascii ds) × (n ≡ value_from 0 ds) × (n < u32_limit)
digits_of_name cs n h p l =
    let (ds, e, a, q, small) = fold_digits_inv 0 cs n (omega arith) h in
    (ds, IsCanonical-of_padded ds a (rw e at p) (rw e at l), e, q, small)

layer_of_inv :
    (name : List ℤ) (n : ℕ)
    → layer_of name ≡ some n
    → (cs : List ℤ) × (name ≡ prefix ++ cs)
      × (0 < length cs)
      × (padded cs ≡ false)
      × (fold_digits 0 cs ≡ some n)
unfolding layer_of
layer_of_inv name n h =
    let (c, cs, e) = zip_eqb_inv name (ground arith) (ground arith) in
    let h' : layer_of (prefix ++ c ∷ cs) ≡ some n = rw e at h in
    (c ∷ cs, e, omega arith, ground arith, ground arith)

-- A name is read as the layer `n` only if it is `l_out-` with the canonical digits of `n`, and a NUL,
-- and a `u32` holds `n`.
pub layer_from_name_inv :
    (array : List ℤ) (n : ℕ)
    → layer_from_name array ≡ some n
    → (ds : List ℕ) × (rest : List ℤ) × IsCanonical ds
      × (array ≡ named ds rest)
      × (n ≡ value_from 0 ds)
      × (n < u32_limit)
unfolding layer_from_name
layer_from_name_inv array n h = elim (Option-cases (until_nul array)) [
  | inl e ↦ ground arith
  | inr (name, e) ↦
      let (rest, p) = until_nul_inv array name e in
      let (cs, q, l, unpadded, folded) = layer_of_inv name n (ground arith) in
      let (ds, canonical, r, v, small) = digits_of_name cs n folded unpadded l in
      (ds, rest, canonical, rw (p, q, r), v, small)
]
