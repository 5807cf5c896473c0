-- ===== src/Context/Lora/Refusals.antt =====
-- An error of `validate_lora_adapters` names an offender, and `lora_adapters_set` calls llama.cpp with
-- whole stacks only.
use mathlib.Core.Path.{subst}
use mathlib.Core.List.{append_assoc}
use llama_cpp_rs.Prelude.{
  if_rule, ℕ, zero, suc, ◌<◌, ◌≡◌, ◌≢◌, refl, ◌⊎◌, inl, inr, Bool, false, not, Option, none, some,
  List, [], ◌∷◌, ◌++◌, map, length, get_elem?, ◌==◌, ==_iff, arith, ℤ, length-append,
}
use llama_cpp_rs.Prelude.Result.{Result, ok, err, Result-cases}
use llama_cpp_rs.Prelude.Run.{Run}
use llama_cpp_rs.Context.Lora.{
  LlamaLoraAdapter, LlamaLoraAdapterSetError, non_finite_scale, model_mismatch, duplicate_adapter,
  position, check_adapter, check_from, validate_lora_adapters, lora_adapters_set, replaced,
}
use llama_cpp_rs.Context.Lora.Stack.{IsStack, validate_lora_adapters_iff}

module _ {F : Type 0} (is_finite : F → Bool) (model : ℕ)
    (adapters : List (LlamaLoraAdapter × F)) where
  -- What the error says of the stack.
  abbrev pub Offends : LlamaLoraAdapterSetError → Type 0
  Offends (non_finite_scale i) =
      (p : LlamaLoraAdapter × F) × (get_elem? adapters i ≡ some p) × (is_finite p.1 ≡ false)
  Offends (model_mismatch i) =
      (p : LlamaLoraAdapter × F) × (get_elem? adapters i ≡ some p) × (p.0.model ≢ model)
  Offends (duplicate_adapter i j) =
      (p : LlamaLoraAdapter × F) × (q : LlamaLoraAdapter × F) × (get_elem? adapters i ≡ some p)
      × (get_elem? adapters j ≡ some q)
      × (i < j)
      × (p.0.lora_adapter ≡ q.0.lora_adapter)
  Offends (LlamaLoraAdapterSetError.error_result code) = ⊥

module _ {F : Type 0} (is_finite : F → Bool) (model : ℕ) where
  position-get :
      (a : ℕ) (priors rest : List (LlamaLoraAdapter × F)) (i : ℕ)
      → position a priors ≡ some i
      → (p : LlamaLoraAdapter × F) × (get_elem? (priors ++ rest) i ≡ some p)
        × (i < length priors)
        × (p.0.lora_adapter ≡ a)
  unfolding position
  position-get a [] rest i h = ground arith
  position-get a ((q, x) ∷ priors) rest zero h =
      ((q, x), refl, omega arith, ground (arith, ==_iff q.lora_adapter a))
  position-get a ((q, x) ∷ priors) rest (suc i) h =
      let (p, e, l, same) = position-get a priors rest i (ground arith) in
      (p, e, omega (arith, l), same)

  get_elem?-append :
      (priors : List (LlamaLoraAdapter × F)) (p : LlamaLoraAdapter × F)
      (rest : List (LlamaLoraAdapter × F))
      → get_elem? (priors ++ p ∷ rest) (length priors) ≡ some p
  get_elem?-append [] p rest = refl
  get_elem?-append (q ∷ priors) p rest = get_elem?-append priors p rest

  -- what a refusal means
  abbrev Refusal : List (LlamaLoraAdapter × F) → Result LlamaLoraAdapterSetError (Unit {0}) → Type 0
  Refusal adapters (ok done) = Unit
  Refusal adapters (err e) = Offends is_finite model adapters e

  check_adapter-Refusal :
      (priors : List (LlamaLoraAdapter × F)) (a : LlamaLoraAdapter) (x : F)
      (rest : List (LlamaLoraAdapter × F))
      → Refusal (priors ++ (a, x) ∷ rest) (check_adapter is_finite model priors (length priors) a x)
  unfolding check_adapter
  check_adapter-Refusal priors a x rest =
      let P = Refusal (priors ++ (a, x) ∷ rest) in
      let here = get_elem?-append priors (a, x) rest in
      if_rule P (not (is_finite x)) _ _ (λ n. ((a, x), here, ground arith))
        λ f.
          if_rule P (not (a.model == model)) _ _
            (λ n. ((a, x), here, ground (arith, ==_iff a.model model)))
            λ m. found (position-get a.lora_adapter priors ((a, x) ∷ rest)) here
    where
      found :
          ((i : ℕ)
            → position a.lora_adapter priors ≡ some i
            → (p : LlamaLoraAdapter × F) × (get_elem? (priors ++ (a, x) ∷ rest) i ≡ some p)
              × (i < length priors)
              × (p.0.lora_adapter ≡ a.lora_adapter))
          → get_elem? (priors ++ (a, x) ∷ rest) (length priors) ≡ some (a, x)
          → Refusal (priors ++ (a, x) ∷ rest) (elim (position a.lora_adapter priors) [
            | some first_index ↦ err (duplicate_adapter first_index (length priors))
            | none ↦ ok tt
          ])
      found get here =
          elim (position a.lora_adapter priors)
              as (λ (o : Option ℕ).
                ((i : ℕ)
                  → o ≡ some i
                  → (p : LlamaLoraAdapter × F) × (get_elem? (priors ++ (a, x) ∷ rest) i ≡ some p)
                    × (i < length priors)
                    × (p.0.lora_adapter ≡ a.lora_adapter))
                → Refusal (priors ++ (a, x) ∷ rest) (elim o [
                  | some first_index ↦ err (duplicate_adapter first_index (length priors))
                  | none ↦ ok tt
                ])) [
                  | none ↦ λ g. tt
                  | some i ↦ λ g. let (p, e, l, same) = g i refl in (p, (a, x), e, here, l, same)
                ]
            get

  check_from_inv :
      (priors : List (LlamaLoraAdapter × F)) (rest : List (LlamaLoraAdapter × F))
      (e : LlamaLoraAdapterSetError)
      → check_from is_finite model priors (length priors) rest ≡ err e
      → Offends is_finite model (priors ++ rest) e
  unfolding check_from
  check_from_inv priors [] e h = ground arith
  check_from_inv priors ((a, x) ∷ rest) e h =
      elim (Result-cases (check_adapter is_finite model priors (length priors) a x)) [
        | inl (done, good) ↦
            subst (λ (l : List (LlamaLoraAdapter × F)). Offends is_finite model l e)
              (append_assoc priors ((a, x) ∷ []) rest)
              (check_from_inv (priors ++ (a, x) ∷ []) rest e
                (ground (arith, good, length-append priors ((a, x) ∷ []))))
        | inr (y, bad) ↦
            let refusal =
              subst (Refusal (priors ++ (a, x) ∷ rest)) bad
                (check_adapter-Refusal priors a x rest) in
            subst (Offends is_finite model (priors ++ (a, x) ∷ rest)) (ground (arith, bad)) refusal
      ]

  -- An error of the validation names an adapter that is what the error says: its scale is not finite,
  -- it belongs to another model, or it is the adapter of an earlier index.
  validate_lora_adapters_inv :
      (adapters : List (LlamaLoraAdapter × F)) (e : LlamaLoraAdapterSetError)
      → validate_lora_adapters is_finite model adapters ≡ err e
      → Offends is_finite model adapters e
  unfolding validate_lora_adapters
  validate_lora_adapters_inv adapters e h = check_from_inv [] adapters e h

  module _ {S : Type 0} (set_adapters_lora : List ℕ → List F → S → ℤ × S) where
    -- A stack reaches llama.cpp whole, its adapters and its scales in order, and the call returns what
    -- llama.cpp's code says; any other list is refused with an offender, and llama.cpp's state is the
    -- one before the call.
    pub lora_adapters_set_atomic :
        (adapters : List (LlamaLoraAdapter × F)) (s : S)
        → (IsStack is_finite model adapters
            × (lora_adapters_set is_finite model set_adapters_lora adapters s
                ≡ replaced (
                    set_adapters_lora
                      (map (λ p. p.0.lora_adapter) adapters)
                      (map (λ p. p.1) adapters)
                      s)))
          ⊎ ((e : LlamaLoraAdapterSetError) × Offends is_finite model adapters e
              × (lora_adapters_set is_finite model set_adapters_lora adapters s ≡ Run.err e s))
    unfolding lora_adapters_set
    lora_adapters_set_atomic adapters s =
        elim (Result-cases (validate_lora_adapters is_finite model adapters)) [
          | inl (done, e) ↦
              inl ((validate_lora_adapters_iff is_finite model adapters).0 e, ground (arith, e))
          | inr (x, e) ↦ inr (x, validate_lora_adapters_inv adapters x e, ground (arith, e))
        ]
