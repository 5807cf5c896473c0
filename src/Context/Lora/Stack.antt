-- ===== src/Context/Lora/Stack.antt =====
-- `validate_lora_adapters` against the stacks that llama.cpp may be given.

use llama_cpp_rs.Prelude.{
  ℕ, suc, ◌≡◌, ◌≢◌, refl, ◌↔◌, inl, inr, Bool, true, none, List, [], ◌∷◌, ◌++◌, All, ==_iff, arith,
}
use llama_cpp_rs.Prelude.Result.{ok, Result-cases}
use llama_cpp_rs.Context.Lora.{
  LlamaLoraAdapter, position, check_adapter, check_from, validate_lora_adapters,
}

module _ {F : Type 0} where
  -- No adapter stands twice in the stack.
  abbrev pub Distinct : List (LlamaLoraAdapter × F) → Type 0
  Distinct [] = Unit
  Distinct (p ∷ rest) = All (λ q. p.0.lora_adapter ≢ q.0.lora_adapter) rest × Distinct rest

  -- every adapter of `rest` is other than those of `priors`
  abbrev Fresh : List (LlamaLoraAdapter × F) → List (LlamaLoraAdapter × F) → Type 0
  Fresh priors rest = All (λ q. position q.0.lora_adapter priors ≡ none) rest

  position-append :
      (a : ℕ) (priors : List (LlamaLoraAdapter × F)) (p : LlamaLoraAdapter × F)
      → (position a (priors ++ p ∷ []) ≡ none)
        ↔ ((position a priors ≡ none) × (p.0.lora_adapter ≢ a))
  unfolding position
  position-append a [] (q, x) = ground (arith, ==_iff q.lora_adapter a)
  position-append a ((q, x) ∷ priors) p = ground (arith, position-append a priors p)

  Fresh-append :
      (priors : List (LlamaLoraAdapter × F)) (p : LlamaLoraAdapter × F)
      (rest : List (LlamaLoraAdapter × F))
      → Fresh (priors ++ p ∷ []) rest
        ↔ (Fresh priors rest × All (λ q. p.0.lora_adapter ≢ q.0.lora_adapter) rest)
  Fresh-append priors p [] = ((λ h. (tt, tt)), λ h. tt)
  Fresh-append priors p (q ∷ rest) =
      let (to, from) = position-append q.0.lora_adapter priors p in
      let (tos, froms) = Fresh-append priors p rest in
      (
        (λ h. let (a, b) = to h.0 in let (c, d) = tos h.1 in ((a, c), (b, d))),
        λ h. (from (h.0.0, h.1.0), froms (h.0.1, h.1.1)),
      )

  Fresh-nil : (rest : List (LlamaLoraAdapter × F)) → Fresh [] rest
  unfolding position
  Fresh-nil [] = tt
  Fresh-nil (q ∷ rest) = (refl, Fresh-nil rest)

-- A stack for the model at the address `model`.
pub record IsStack {F : Type 0} (is_finite : F → Bool) (model : ℕ)
    (adapters : List (LlamaLoraAdapter × F)) : Type 0 where
  pub finite : All (λ p. is_finite p.1 ≡ true) adapters
  pub same_model : All (λ p. p.0.model ≡ model) adapters
  pub distinct : Distinct adapters

module _ {F : Type 0} (is_finite : F → Bool) (model : ℕ) where
  check_adapter_iff :
      (priors : List (LlamaLoraAdapter × F)) (index : ℕ) (p : LlamaLoraAdapter × F)
      → (check_adapter is_finite model priors index p.0 p.1 ≡ ok tt)
        ↔ ((is_finite p.1 ≡ true) × (p.0.model ≡ model) × (position p.0.lora_adapter priors ≡ none))
  unfolding check_adapter
  check_adapter_iff priors index (a, x) = ground (arith, ==_iff a.model model)

  check_from_iff :
      (priors : List (LlamaLoraAdapter × F)) (index : ℕ) (rest : List (LlamaLoraAdapter × F))
      → (check_from is_finite model priors index rest ≡ ok tt)
        ↔ (IsStack is_finite model rest × Fresh priors rest)
  unfolding check_from
  check_from_iff priors index [] =
      ((λ h. (record { finite = tt; same_model = tt; distinct = tt }, tt)), λ h. refl)
  check_from_iff priors index ((a, x) ∷ rest) =
      let (to, from) = check_adapter_iff priors index (a, x) in
      let (tos, froms) = check_from_iff (priors ++ (a, x) ∷ []) (suc index) rest in
      let (parts, join) = Fresh-append priors (a, x) rest in
      elim (Result-cases (check_adapter is_finite model priors index a x)) [
        | inl (done, e) ↦
            let (f, m, n) = to e in
            (
              (λ h.
                  let (s, fresh) = tos (ground (arith, e)) in
                  let (old, new) = parts fresh in
                  (
                    record {
                      finite = (f, s.finite);
                      same_model = (m, s.same_model);
                      distinct = (new, s.distinct);
                    },
                    (n, old),
                  )),
              λ h.
                  let (s, (n', old)) = h in
                  let rec = froms (
                    record {
                      finite = s.finite.1;
                      same_model = s.same_model.1;
                      distinct = s.distinct.1;
                    },
                    join (old, s.distinct.0),
                  ) in
                  ground (arith, e, rec),
            )
        | inr (y, e) ↦ (
          (λ h. ground (arith, e)),
          λ h. let good = from (h.0.finite.0, h.0.same_model.0, h.1.0) in ground (arith, e),
        )
      ]

  -- The validation passes exactly the stacks of adapters that have finite scales, belong to the
  -- context's model and are pairwise distinct.
  pub validate_lora_adapters_iff :
      (adapters : List (LlamaLoraAdapter × F))
      → (validate_lora_adapters is_finite model adapters ≡ ok tt) ↔ IsStack is_finite model adapters
  unfolding validate_lora_adapters
  validate_lora_adapters_iff adapters =
      let (to, from) = check_from_iff [] 0 adapters in
      ((λ h. (to h).0), λ s. from (s, Fresh-nil adapters))
