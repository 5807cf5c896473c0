-- ===== src/Evidence/Features/Sorted.antt =====
-- build_evidence.rs: what `validate_features` accepts, and what `effective_features` gives.
use mathlib.Core.Path.{subst}
use llama_cpp_rs.Prelude.{
  ◌≡◌, refl, ◌↔◌, ◌≢◌, Bool, true, false, ◌&&◌, List, [], ◌∷◌, Option, none, some, arith, All,
  Option-cases, inl, inr, if_rule, Bool-cases, if◌then◌else◌,
}
use llama_cpp_rs.Prelude.Result.{ok}
use llama_cpp_rs.Prelude.Text.{
  Text, text_eqb, text_eqb_iff, text_ltb, text_ltb_irrefl, text_ltb_total,
}
use llama_cpp_rs.Evidence.Order.{get, keys, Below, IsStrict, Below-trans, insert-IsStrict}
use llama_cpp_rs.Evidence.Features.{
  known_features, active_env, features_of, sort_insert, sort_unstable, features_from,
  effective_features, is_known, not_above, validate_from, validate_features,
}

abbrev pub Known : List (Text × Text) → List Text → Type 0
Known table fs = All (λ f. is_known table f ≡ true) fs

abbrev After : Option Text → List Text → Type 0
After none fs = Unit
After (some p) [] = Unit
After (some p) (f ∷ fs) = text_ltb p f ≡ true

Below-head : (f : Text) (fs : List Text) → IsStrict fs → After (some f) fs → Below f fs
Below-head f [] s a = tt
Below-head f (g ∷ fs) (b, s) a = (a, Below-trans f g fs a b)

head-Below : (f : Text) (fs : List Text) → Below f fs → After (some f) fs
head-Below f [] b = tt
head-Below f (g ∷ fs) (p, b) = p

validate_from_iff :
    (table : List (Text × Text)) (p : Option Text) (fs : List Text)
    → (validate_from table p fs ≡ ok tt) ↔ (Known table fs × IsStrict fs × After p fs)
unfolding validate_from not_above
validate_from_iff table none [] = (λ h. (tt, tt, tt), λ h. refl)
validate_from_iff table (some p) [] = (λ h. (tt, tt, tt), λ h. refl)
validate_from_iff table none (f ∷ fs) =
    let (there, back) = validate_from_iff table (some f) fs in
    (λ h. ground (arith, there, Below-head f fs), λ h. ground (arith, back, head-Below f fs))
validate_from_iff table (some p) (f ∷ fs) =
    let (there, back) = validate_from_iff table (some f) fs in
    (λ h. ground (arith, there, Below-head f fs), λ h. ground (arith, back, head-Below f fs))

-- The features are accepted exactly when each is one of the table's and they are in strictly
-- ascending order of bytes, so that none stands twice.
pub validate_features_iff :
    (fs : List Text) → (validate_features fs ≡ ok tt) ↔ (Known known_features fs × IsStrict fs)
unfolding validate_features
validate_features_iff fs =
    let (there, back) = validate_from_iff known_features none fs in
    (λ h. let (k, s, a) = there h in (k, s), λ (k, s). back (k, s, tt))

-- The text is none of the list's.
abbrev Fresh : Text → List Text → Type 0
Fresh f fs = All (λ g. f ≢ g) fs

sort_insert-all {κ} :
    (P : Text → Type κ) (x : Text) (ys : List Text) → P x → All P ys → All P (sort_insert x ys)
unfolding sort_insert
sort_insert-all P x [] p a = (p, tt)
sort_insert-all P x (y ∷ ys) p (q, a) =
    if_rule (All P) (text_ltb y x) _ _
      (λ (e : text_ltb y x ≡ true). (q, sort_insert-all P x ys p a))
      (λ (e : text_ltb y x ≡ false). (p, (q, a)))

sort_unstable-all {κ} : (P : Text → Type κ) (xs : List Text) → All P xs → All P (sort_unstable xs)
unfolding sort_unstable
sort_unstable-all P [] a = tt
sort_unstable-all P (x ∷ xs) (p, a) =
    sort_insert-all P x (sort_unstable xs) p (sort_unstable-all P xs a)

sort_insert-IsStrict :
    (x : Text) (ys : List Text) → Fresh x ys → IsStrict ys → IsStrict (sort_insert x ys)
unfolding sort_insert
sort_insert-IsStrict x [] f s = (tt, tt)
sort_insert-IsStrict x (y ∷ ys) (n, f) (b, s) =
    if_rule IsStrict (text_ltb y x) _ _
      (λ (e : text_ltb y x ≡ true).
        (sort_insert-all (λ j. text_ltb y j ≡ true) x ys e b, sort_insert-IsStrict x ys f s))
      (λ (e : text_ltb y x ≡ false).
        let p : text_ltb x y ≡ true = ground (arith, text_ltb_total x y) in
        ((p, Below-trans x y ys p b), (b, s)))

-- The list has no text twice.
abbrev Distinct : List Text → Type 0
Distinct [] = Unit
Distinct (x ∷ xs) = Fresh x xs × Distinct xs

sort_unstable-IsStrict : (xs : List Text) → Distinct xs → IsStrict (sort_unstable xs)
unfolding sort_unstable
sort_unstable-IsStrict [] d = tt
sort_unstable-IsStrict (x ∷ xs) (f, d) =
    sort_insert-IsStrict x (sort_unstable xs) (sort_unstable-all (λ g. x ≢ g) xs f)
      (sort_unstable-IsStrict xs d)

active_env-IsStrict : (vars : List Text) → IsStrict (keys (active_env vars))
unfolding active_env
active_env-IsStrict [] = unfold keys in tt
active_env-IsStrict (key ∷ vars) =
    ground (arith, active_env-IsStrict vars, insert-IsStrict key tt (active_env vars))

-- The key of a feature.
key_of : List (Text × Text) → Text → Option Text
key_of [] f = none
key_of ((k, g) ∷ table) f = if text_eqb g f then some k else key_of table f

-- Each feature of the table has one key.
abbrev Tells : List (Text × Text) → (Text × Text) → Type 0
Tells table (k, f) = (key_of table f ≡ some k) × (is_known table f ≡ true)

get-all {κ} :
    (P : Text × Text → Type κ) (k f : Text) (table : List (Text × Text))
    → All P table
    → get k table ≡ some f
    → P (k, f)
unfolding get
get-all P k f [] a h = cc
get-all P k f ((j, g) ∷ table) (p, a) h = elim (Bool-cases (text_eqb k j)) [
  | inl e ↦ let same : k ≡ j = (text_eqb_iff k j).0 e in subst P (ground (arith, same, e, h)) p
  | inr e ↦ get-all P k f table a (ground (arith, e, h))
]

features_of-skip :
    (table : List (Text × Text)) (k : Text) (env : List Text)
    → get k table ≡ none
    → features_of table (k ∷ env) ≡ features_of table env
unfolding features_of
features_of-skip table k env e = ground arith

features_of-keep :
    (table : List (Text × Text)) (k f : Text) (env : List Text)
    → get k table ≡ some f
    → features_of table (k ∷ env) ≡ f ∷ features_of table env
unfolding features_of
features_of-keep table k f env e = ground arith

module _ (table : List (Text × Text)) (tells : All (Tells table) table) where
  features_of-Fresh :
      (k f : Text) (env : List Text)
      → get k table ≡ some f
      → Below k env
      → Fresh f (features_of table env)
  features_of-Fresh k f [] h b = unfold features_of in tt
  features_of-Fresh k f (j ∷ env) h (p, b) = elim (Option-cases (get j table)) [
    | inl e ↦ rw (features_of-skip table j env e) (features_of-Fresh k f env h b)
    | inr (g, e) ↦ rw (features_of-keep table j g env e) (
      (λ same. ground (
        arith,
        (get-all (Tells table) k f table tells h).0,
        (get-all (Tells table) j g table tells e).0,
        text_ltb_irrefl k,
      )),
      features_of-Fresh k f env h b,
    )
  ]

  features_of-Distinct : (env : List Text) → IsStrict env → Distinct (features_of table env)
  features_of-Distinct [] s = unfold features_of in tt
  features_of-Distinct (k ∷ env) (b, s) = elim (Option-cases (get k table)) [
    | inl e ↦ rw (features_of-skip table k env e) (features_of-Distinct env s)
    | inr (f, e) ↦
        rw (features_of-keep table k f env e)
          (features_of-Fresh k f env e b, features_of-Distinct env s)
  ]

  features_of-Known : (env : List Text) → Known table (features_of table env)
  features_of-Known [] = unfold features_of in tt
  features_of-Known (k ∷ env) = elim (Option-cases (get k table)) [
    | inl e ↦ rw (features_of-skip table k env e) (features_of-Known env)
    | inr (f, e) ↦
        rw (features_of-keep table k f env e)
          ((get-all (Tells table) k f table tells e).1, features_of-Known env)
  ]

features_from-ok :
    (table : List (Text × Text)) (env fs : List Text)
    → features_from table env ≡ ok fs
    → sort_unstable (features_of table env) ≡ fs
unfolding features_from
features_from-ok table env fs h = ground arith

told : Option Text → Text → Bool
told none k = false
told (some j) k = text_eqb j k

all_told : List (Text × Text) → List (Text × Text) → Bool
all_told table [] = true
all_told table ((k, f) ∷ es) = told (key_of table f) k && (is_known table f && all_told table es)

told-eq : (o : Option Text) (k : Text) → told o k ≡ true → o ≡ some k
unfolding told
told-eq none k h = cc
told-eq (some j) k h = ground (arith, text_eqb_iff j k)

all_told-tell : (table es : List (Text × Text)) → all_told table es ≡ true → All (Tells table) es
unfolding all_told
all_told-tell table [] h = tt
all_told-tell table ((k, f) ∷ es) h =
    ground (arith, told-eq (key_of table f) k, all_told-tell table es)

known_features-tell : All (Tells known_features) known_features
unfolding all_told told key_of is_known text_eqb
known_features-tell = all_told-tell known_features known_features refl

-- What `effective_features` reads from the environment, whatever variables it has and in whatever order,
-- passes `validate_features`: the features are known and in strictly ascending order.
effective_features-validate_features :
    (vars fs : List Text) → effective_features vars ≡ ok fs → validate_features fs ≡ ok tt
unfolding effective_features
effective_features-validate_features vars fs h =
    let env = keys (active_env vars) in
    let e = features_from-ok known_features env fs h in
    subst (λ l. validate_features l ≡ ok tt) e
      ((validate_features_iff _).1 (
        sort_unstable-all (λ f. is_known known_features f ≡ true) (features_of known_features env)
            (features_of-Known known_features known_features-tell env),
        sort_unstable-IsStrict (features_of known_features env) (
            features_of-Distinct known_features known_features-tell env (active_env-IsStrict vars)),
      ))
