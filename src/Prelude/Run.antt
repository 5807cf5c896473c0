-- ===== src/Prelude/Run.antt =====
-- The result of a method on `&mut self`: it returns `Ok` or `Err` and leaves a state, it panics, or
-- it does what Rust leaves undefined (a read or a write outside of an allocation, or at null).
use mathlib.Core.Path.{◌≡◌, refl}
use mathlib.Core.Option.{Option, none, some}
use mathlib.Core.Bool.{Bool, true, false}
use llama_cpp_rs.Prelude.Tests.{if◌then◌else◌}

pub data Run {ℓ} (S E A : Type ℓ) : Type ℓ where
  ok : A → S → Run S E A
  err : E → S → Run S E A
  panic fault : Run S E A

-- A method over the state `S`.
abbrev pub Method {ℓ} : Type ℓ → Type ℓ → Type ℓ → Type ℓ
Method S E A = S → Run S E A

infixl 5 ◌>>=◌ ◌>>◌
abbrev pub ◌>>=◌ {ℓ} : {S E A B : Type ℓ} → Method S E A → (A → Method S E B) → Method S E B
◌>>=◌ m f s = elim (m s) [ ok a s' ↦ f a s' | err e s' ↦ err e s' | panic ↦ panic | fault ↦ fault ]

abbrev pub ◌>>◌ {ℓ} : {S E A B : Type ℓ} → Method S E A → Method S E B → Method S E B
m >> k = m >>= λ _. k

module _ {ℓ} {S E A : Type ℓ} where
  abbrev pub pure : A → Method S E A
  pure a s = ok a s

  abbrev pub throw : E → Method S E A
  throw e s = err e s

  -- `expect` on a conversion
  abbrev pub or_panic : Option A → Method S E A
  or_panic none s = panic
  or_panic (some a) s = ok a s

  -- `?` on an option with its error
  abbrev pub or_throw : E → Option A → Method S E A
  or_throw e none s = err e s
  or_throw e (some a) s = ok a s

abbrev pub gets {ℓ} : {S E A : Type ℓ} → (S → A) → Method S E A
gets f s = ok (f s) s

-- A step that is known to succeed is run by this equation.
pub >>=-eq_of_ok {ℓ} :
    {S E A B : Type ℓ} (m : Method S E A) (f : A → Method S E B) {s s' : S} {a : A}
    → m s ≡ ok a s'
    → (m >>= f) s ≡ f a s'
>>=-eq_of_ok m f e = rw (e, ◌>>=◌)

pub >>=-eq_of_fault {ℓ} :
    {S E A B : Type ℓ} (m : Method S E A) (f : A → Method S E B) {s : S}
    → m s ≡ fault
    → (m >>= f) s ≡ fault
>>=-eq_of_fault m f e = rw (e, ◌>>=◌)

result_inv {ℓ} :
    {S E A B : Type ℓ} (r : Run S E A) (f : A → Method S E B) (s : S) {s' : S} {b : B}
    → ((λ _. r) >>= f) s ≡ ok b s'
    → (a : A) × (s1 : S) × (r ≡ ok a s1) × (f a s1 ≡ ok b s')
result_inv (ok a s1) f s h = (a, s1, refl, h)
result_inv (err e s1) f s h = cc
result_inv panic f s h = cc
result_inv fault f s h = cc

-- What a run of two steps tells about each: the first step returned, and the second went on from there.
pub >>=-ok_inv {ℓ} :
    {S E A B : Type ℓ} (m : Method S E A) (f : A → Method S E B) {s s' : S} {b : B}
    → (m >>= f) s ≡ ok b s'
    → (a : A) × (s1 : S) × (m s ≡ ok a s1) × (f a s1 ≡ ok b s')
>>=-ok_inv m f {s} h = result_inv (m s) f s h

-- A run that returned was not refused by the check before it.
pub unless_inv {ℓ} :
    {S E A : Type ℓ} (b : Bool) (e : E) (s : S) (r : Run S E A) {s' : S} {a : A}
    → (if b then err e s else r) ≡ ok a s'
    → (b ≡ false) × (r ≡ ok a s')
unless_inv true e s r h = cc
unless_inv false e s r h = (refl, h)
