-- ===== src/Prelude/Memory.antt =====
-- Arrays behind C pointers. `none` is the null pointer.
use Prim.Native.Nat.{ℕ, zero, suc, ◌≤◌, ◌<◌}
use mathlib.Core.Path.{◌≡◌, refl, ap}
use mathlib.Core.Logic.{◌≢◌}
use mathlib.Core.List.{List, [], ◌∷◌, ◌++◌}
use mathlib.Core.Option.{Option, none, some}
use native.Mathlib.Omega.{arith}
use llama_cpp_rs.Prelude.Tests.{ltb, lt→ltb, if◌then◌else◌}
use llama_cpp_rs.Prelude.Lists.{length, get_elem?, set, take, length-set, get_elem?-set_self}

abbrev pub Ptr {ℓ} : Type ℓ → Type ℓ
Ptr A = Option (List A)

module _ {ℓ} {A : Type ℓ} where
  -- `*p.add(i)`; `none` is a read that Rust leaves undefined
  abbrev pub read : Ptr A → ℕ → Option A
  read none i = none
  read (some xs) i = get_elem? xs i

  -- the array after a write inside it
  abbrev pub put : Ptr A → ℕ → A → Ptr A
  put none i v = none
  put (some xs) i v = some (set xs i v)

  -- `p.add(i).write(v)`; `none` is a write that Rust leaves undefined
  unfoldable pub write : Ptr A → ℕ → A → Option (Ptr A)
  write none i v = none
  write (some xs) i v = if ltb i (length xs) then some (some (set xs i v)) else none

  -- `p` points to at least `n` elements.
  abbrev pub Spans : ℕ → Ptr A → Type ℓ
  Spans n p = (xs : List A) × (p ≡ some xs) × (n ≤ length xs)

module _ {ℓ} {A : Type ℓ} where
  set_same : (xs : List A) (i : ℕ) (v : A) → get_elem? xs i ≡ some v → set xs i v ≡ xs
  set_same [] i v h = refl
  set_same (x ∷ xs) zero v h = ground arith
  set_same (x ∷ xs) (suc i) v h = ap (◌∷◌ x) (set_same xs i v h)

  set-set : (xs : List A) (i : ℕ) (v w : A) → set (set xs i v) i w ≡ set xs i w
  set-set [] i v w = refl
  set-set (x ∷ xs) zero v w = refl
  set-set (x ∷ xs) (suc i) v w = ap (◌∷◌ x) (set-set xs i v w)

  get_elem?-set_ne :
      (xs : List A) (i j : ℕ) (v : A) → i ≢ j → get_elem? (set xs i v) j ≡ get_elem? xs j
  get_elem?-set_ne [] i j v h = refl
  get_elem?-set_ne (x ∷ xs) zero zero v h = absurd (h refl)
  get_elem?-set_ne (x ∷ xs) zero (suc j) v h = refl
  get_elem?-set_ne (x ∷ xs) (suc i) zero v h = refl
  get_elem?-set_ne (x ∷ xs) (suc i) (suc j) v h = get_elem?-set_ne xs i j v (λ e. h (ap suc e))

  pub get_elem?_lt : (xs : List A) (i : ℕ) → i < length xs → (x : A) × (get_elem? xs i ≡ some x)
  get_elem?_lt [] i h = elim h [ ]
  get_elem?_lt (x ∷ xs) zero h = (x, refl)
  get_elem?_lt (x ∷ xs) (suc i) h = get_elem?_lt xs i (omega arith)

  pub take-suc-set :
      (xs : List A) (i : ℕ) (v : A)
      → i < length xs
      → take (suc i) (set xs i v) ≡ take i xs ++ v ∷ []
  take-suc-set [] i v h = elim h [ ]
  take-suc-set (x ∷ xs) zero v h = refl
  take-suc-set (x ∷ xs) (suc i) v h = ap (◌∷◌ x) (take-suc-set xs i v (omega arith))

module _ {ℓ} {A : Type ℓ} where
  pub put_same : (p : Ptr A) (i : ℕ) (v : A) → read p i ≡ some v → put p i v ≡ p
  put_same none i v h = refl
  put_same (some xs) i v h = ap some (set_same xs i v h)

  pub put-put : (p : Ptr A) (i : ℕ) (v w : A) → put (put p i v) i w ≡ put p i w
  put-put none i v w = refl
  put-put (some xs) i v w = ap some (set-set xs i v w)

  pub read-put_ne : (p : Ptr A) (i j : ℕ) (v : A) → i ≢ j → read (put p i v) j ≡ read p j
  read-put_ne none i j v h = refl
  read-put_ne (some xs) i j v h = get_elem?-set_ne xs i j v h

  pub read-put_self :
      (n : ℕ) (p : Ptr A) (i : ℕ) (v : A) → Spans n p → i < n → read (put p i v) i ≡ some v
  read-put_self n none i v s h = ground arith
  read-put_self n (some xs) i v (ys, e, l) h = get_elem?-set_self xs i v (ground arith)

  pub write_lem :
      (n : ℕ) (p : Ptr A) (i : ℕ) (v : A) → Spans n p → i < n → write p i v ≡ some (put p i v)
  unfolding write
  write_lem n none i v s h = ground arith
  write_lem n (some xs) i v (ys, e, l) h = rw (lt→ltb i (length xs) (ground arith))

  -- A write outside of the array is undefined.
  pub write_beyond : (xs : List A) (i : ℕ) (v : A) → length xs ≤ i → write (some xs) i v ≡ none
  unfolding write
  write_beyond xs i v h = ground arith

  pub Spans-put : (n : ℕ) (p : Ptr A) (i : ℕ) (v : A) → Spans n p → Spans n (put p i v)
  Spans-put n none i v s = s
  Spans-put n (some xs) i v (ys, e, l) = (set xs i v, refl, ground (arith, length-set xs i v))

  pub read_of_Spans :
      (n : ℕ) (p : Ptr A) (i : ℕ) → Spans n p → i < n → (v : A) × (read p i ≡ some v)
  read_of_Spans n none i (ys, e, l) h = cc
  read_of_Spans n (some xs) i (ys, e, l) h = get_elem?_lt xs i (ground arith)
