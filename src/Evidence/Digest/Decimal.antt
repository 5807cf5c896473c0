-- ===== src/Evidence/Digest/Decimal.antt =====
-- build_evidence.rs: the digits of a number, as `evidence_digest` hashes them.
use llama_cpp_rs.Prelude.{
  ℕ, zero, suc, ◌+◌, ◌*◌, ◌/◌, ◌%◌, ◌-◌, ◌≡◌, ◌≤◌, ◌<◌, refl, sym, ap, ◌∙◌, [], ◌∷◌, ◌++◌, arith,
  ltb, if_rule, true, false, ◌⊎◌,
}
use llama_cpp_rs.Prelude.Text.{Text, digits, to_string, Free}

-- The number that digits spell.
value_from : ℕ → Text → ℕ
value_from n [] = n
value_from n (d ∷ ds) = value_from (n * 10 + (d - 48)) ds

value_from-append :
    (n : ℕ) (ds : Text) (d : ℕ) → value_from n (ds ++ (d ∷ [])) ≡ value_from n ds * 10 + (d - 48)
unfolding value_from
value_from-append n [] d = refl
value_from-append n (c ∷ ds) d = value_from-append (n * 10 + (c - 48)) ds d

value-digits : (fuel n : ℕ) → n ≤ fuel → value_from 0 (digits fuel n) ≡ n
unfolding value_from digits
value-digits zero n h = ground arith
value-digits (suc fuel) n h =
    ground
      (arith, value_from-append 0 (digits fuel (n / 10)) (48 + n % 10), value-digits fuel (n / 10))

pub to_string_inj : (n m : ℕ) → to_string n ≡ to_string m → n ≡ m
unfolding to_string
to_string_inj n m e =
    sym (value-digits n n (omega arith)) ∙ ap (value_from 0) e ∙ value-digits m m (omega arith)

pub Free-append : (c : ℕ) (xs ys : Text) → Free c xs → Free c ys → Free c (xs ++ ys)
Free-append c [] ys f g = g
Free-append c (x ∷ xs) ys (n, f) g = (n, Free-append c xs ys f g)

-- Digits are bytes from 48 to 57.
pub Free-digits : (c fuel n : ℕ) → c < 48 ⊎ 57 < c → n ≤ fuel → Free c (digits fuel n)
unfolding digits
Free-digits c zero n out h = (ground arith, tt)
Free-digits c (suc fuel) n out h =
    if_rule (Free c) (ltb n 10) _ _ (λ (e : ltb n 10 ≡ true). (ground arith, tt))
      (λ (e : ltb n 10 ≡ false).
        Free-append c (digits fuel (n / 10)) ((48 + n % 10) ∷ [])
          (Free-digits c fuel (n / 10) out (omega arith)) (ground arith, tt))
