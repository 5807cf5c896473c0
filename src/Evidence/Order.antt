-- ===== src/Evidence/Order.antt =====
-- Rust's `BTreeMap` and `BTreeSet` with texts as keys, as build_evidence.rs uses them: an association
-- list in the order of its keys.
use llama_cpp_rs.Prelude.{
  suc, ◌≡◌, refl, Bool, true, false, ◌||◌, List, [], ◌∷◌, length, if◌then◌else◌, arith, All, Option,
  none, some,
}
use llama_cpp_rs.Prelude.Text.{
  Text, text_eqb, text_eqb_iff, text_ltb, text_ltb_irrefl, text_ltb_trans, text_ltb_total,
}

module _ {ℓ} {V : Type ℓ} where
  unfoldable pub insert : Text → V → List (Text × V) → List (Text × V)
  insert k v [] = (k, v) ∷ []
  insert k v ((j, w) ∷ m) =
      let rest = insert k v m in
      if text_eqb k j
      then (k, v) ∷ m
      else (if text_ltb k j then (k, v) ∷ (j, w) ∷ m else (j, w) ∷ rest)

  -- `contains_key`, which is also whether an `insert` gives an old value back
  unfoldable pub contains_key : Text → List (Text × V) → Bool
  contains_key k [] = false
  contains_key k ((j, w) ∷ m) = text_eqb k j || contains_key k m

  unfoldable pub get : Text → List (Text × V) → Option V
  get k [] = none
  get k ((j, w) ∷ m) = if text_eqb k j then some w else get k m

  unfoldable pub keys : List (Text × V) → List Text
  keys [] = []
  keys ((k, v) ∷ m) = k ∷ keys m

  unfoldable pub into_values : List (Text × V) → List V
  into_values [] = []
  into_values ((k, v) ∷ m) = v ∷ into_values m

-- The key lies below all of the keys.
abbrev pub Below : Text → List Text → Type 0
Below k ks = All (λ j. text_ltb k j ≡ true) ks

abbrev pub IsStrict : List Text → Type 0
IsStrict [] = Unit
IsStrict (k ∷ ks) = Below k ks × IsStrict ks

pub Below-trans : (k j : Text) (ks : List Text) → text_ltb k j ≡ true → Below j ks → Below k ks
Below-trans k j [] p b = tt
Below-trans k j (i ∷ ks) p (q, b) = (text_ltb_trans k j i p q, Below-trans k j ks p b)

module _ {ℓ} {V : Type ℓ} where
  insert-Below :
      (i k : Text) (v : V) (m : List (Text × V))
      → text_ltb i k ≡ true
      → Below i (keys m)
      → Below i (keys (insert k v m))
  unfolding insert keys
  insert-Below i k v [] p b = (p, tt)
  insert-Below i k v ((j, w) ∷ m) p (q, b) = ground (arith, text_eqb_iff k j, insert-Below i k v m)

  pub insert-IsStrict :
      (k : Text) (v : V) (m : List (Text × V)) → IsStrict (keys m) → IsStrict (keys (insert k v m))
  unfolding insert keys
  insert-IsStrict k v [] h = (tt, tt)
  insert-IsStrict k v ((j, w) ∷ m) (b, h) = ground (
    arith,
    text_eqb_iff k j,
    text_ltb_total k j,
    Below-trans k j (keys m),
    insert-Below j k v m,
    insert-IsStrict k v m h,
  )

  pub contains_key-insert :
      (i k : Text) (v : V) (m : List (Text × V))
      → contains_key i (insert k v m) ≡ (text_eqb i k || contains_key i m)
  unfolding insert contains_key
  contains_key-insert i k v [] = refl
  contains_key-insert i k v ((j, w) ∷ m) =
      ground
        (arith, text_eqb_iff k j, text_eqb_iff i j, text_eqb_iff i k, contains_key-insert i k v m)

  pub length-insert :
      (k : Text) (v : V) (m : List (Text × V))
      → contains_key k m ≡ false
      → length (insert k v m) ≡ suc (length m)
  unfolding insert contains_key
  length-insert k v [] h = refl
  length-insert k v ((j, w) ∷ m) h = ground (arith, length-insert k v m)

  pub length-into_values : (m : List (Text × V)) → length (into_values m) ≡ length m
  unfolding into_values
  length-into_values [] = refl
  length-into_values ((k, v) ∷ m) = ground (arith, length-into_values m)

  -- Two keys go in in either order.
  pub insert_comm :
      (k j : Text) (v w : V) (m : List (Text × V))
      → text_eqb k j ≡ false
      → insert k v (insert j w m) ≡ insert j w (insert k v m)
  unfolding insert
  insert_comm k j v w [] h = ground (
    arith,
    text_eqb_iff k j,
    text_eqb_iff j k,
    text_ltb_total k j,
    text_ltb_trans k j k,
    text_ltb_irrefl k,
  )
  insert_comm k j v w ((i, u) ∷ m) h = ground (
    arith,
    text_eqb_iff k j,
    text_eqb_iff j k,
    text_eqb_iff k i,
    text_eqb_iff j i,
    text_ltb_total k j,
    text_ltb_total k i,
    text_ltb_total j i,
    text_ltb_trans k j k,
    text_ltb_trans k i j,
    text_ltb_trans j i k,
    text_ltb_trans i k i,
    text_ltb_trans i j i,
    text_ltb_irrefl k,
    text_ltb_irrefl i,
    insert_comm k j v w m h,
  )
