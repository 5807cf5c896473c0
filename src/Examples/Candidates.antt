-- ===== src/Examples/Candidates.antt =====
-- Runs of llama-cpp-2/src/token/data_array.rs, with natural numbers for the logits.
use llama_cpp_rs.Prelude.{ℕ, ◌≡◌, true, false, none, [], ◌∷◌, arith, ℤ, take}
use llama_cpp_rs.Prelude.Run.{ok}
use llama_cpp_rs.HiddenStates.{HiddenStateCaptureError}
use llama_cpp_rs.Context.Logits.{LlamaTokenData, LlamaTokenDataArray}
use llama_cpp_rs.Tokens.{RawTokenDataArray, apply_sampler}
use llama_cpp_rs.Tokens.Selection.{IsSelected, apply_sampler-IsSelected}

abbrev token : ℕ → LlamaTokenData ℕ
token n = record { id = ℤ.pos n; logit = 5; p = 0 }

abbrev two_tokens : LlamaTokenDataArray ℕ
two_tokens = record { data_of = token 8 ∷ token 9 ∷ []; selected = none; sorted = false }

-- A sampler that keeps the first element and selects it.
abbrev keep_first : RawTokenDataArray ℕ → RawTokenDataArray ℕ
keep_first r = record {
  elements = token 8 ∷ token 9 ∷ [];
  in_place = true;
  size = 1;
  selected = ℤ.pos 0;
  sorted = true;
}

-- No method here returns an error.
abbrev Error : Type 0
Error = HiddenStateCaptureError

apply_sampler-IsSelected_example :
    (a' : LlamaTokenDataArray ℕ) × (apply_sampler {E = Error} 2 keep_first two_tokens ≡ ok tt a')
    × (a'.data_of ≡ take 1 (token 8 ∷ token 9 ∷ []))
    × IsSelected a'
apply_sampler-IsSelected_example =
    apply_sampler-IsSelected 2 keep_first two_tokens (omega arith, omega arith)
