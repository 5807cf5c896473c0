-- ===== src/Backend/Lifetime.antt =====
-- The lifetime of the backend: any sequence of initialisations and drops.
use llama_cpp_rs.Prelude.{
  ℕ, suc, ◌≡◌, refl, sym, Bool, true, false, List, [], ◌∷◌, ◌++◌, if◌then◌else◌, arith, ap, ◌∙◌,
}
use llama_cpp_rs.Prelude.Run.{ok, err}
use llama_cpp_rs.Backend.{
  NumaStrategy, NumaConstants, LlamaCppError, backend_already_initialized, NativeCall,
  llama_backend_free, Process, call, mark_init, init, init_numa, void_logs, drop,
}

-- The process at its start.
abbrev pub started : Process
started = record { initialized = false; calls = [] }

-- What a process can come to, with the number of `LlamaBackend` values that are alive, and the number of
-- values that the program has written itself: the struct has no private field, so that `LlamaBackend {}`
-- makes one without an initialisation. A value is dropped once, and `void_logs` needs one.
pub data Reachable (constants : NumaConstants) : Process → ℕ → ℕ → Type 0 where
  start : Reachable constants started 0 0
  written :
      (p : Process) (n m : ℕ) → Reachable constants p n m → Reachable constants p (suc n) (suc m)
  initialized :
      (p p' : Process) (n m : ℕ)
      → Reachable constants p n m
      → init p ≡ ok tt p'
      → Reachable constants p' (suc n) m
  numa_initialized :
      (p p' : Process) (n m : ℕ) (strategy : NumaStrategy)
      → Reachable constants p n m
      → init_numa constants strategy p ≡ ok tt p'
      → Reachable constants p' (suc n) m
  refused :
      (p p' : Process) (n m : ℕ) (e : LlamaCppError)
      → Reachable constants p n m
      → init p ≡ err e p'
      → Reachable constants p' n m
  numa_refused :
      (p p' : Process) (n m : ℕ) (strategy : NumaStrategy) (e : LlamaCppError)
      → Reachable constants p n m
      → init_numa constants strategy p ≡ err e p'
      → Reachable constants p' n m
  voided :
      (p : Process) (n m : ℕ)
      → Reachable constants p (suc n) m
      → Reachable constants (void_logs p) (suc n) m
  dropped :
      (p p' : Process) (n m : ℕ)
      → Reachable constants p (suc n) m
      → drop p ≡ ok tt p'
      → Reachable constants p' n m

-- The number of values that the flag stands for.
abbrev pub alive : Process → ℕ
alive p = if p.initialized then 1 else 0

-- A process by its fields.
abbrev process : Bool → List NativeCall → Process
process flag done = record { initialized = flag; calls = done }

module _ (constants : NumaConstants) where
  init_inv :
      (b : Bool) (calls : List NativeCall) (p' : Process)
      → init (process b calls) ≡ ok tt p'
      → (b ≡ false) × (p'.initialized ≡ true)
  unfolding init mark_init call
  init_inv true calls p' h = ground arith
  init_inv false calls p' h = ground arith

  init_numa_inv :
      (b : Bool) (calls : List NativeCall) (p' : Process) (strategy : NumaStrategy)
      → init_numa constants strategy (process b calls) ≡ ok tt p'
      → (b ≡ false) × (p'.initialized ≡ true)
  unfolding init_numa mark_init call
  init_numa_inv true calls p' strategy h = ground arith
  init_numa_inv false calls p' strategy h = ground arith

  init_err :
      (b : Bool) (calls : List NativeCall) (p' : Process) (e : LlamaCppError)
      → init (process b calls) ≡ err e p'
      → p' ≡ process b calls
  unfolding init mark_init
  init_err true calls p' e h = ground arith
  init_err false calls p' e h = ground arith

  init_numa_err :
      (b : Bool) (calls : List NativeCall) (p' : Process) (strategy : NumaStrategy)
      (e : LlamaCppError)
      → init_numa constants strategy (process b calls) ≡ err e p'
      → p' ≡ process b calls
  unfolding init_numa mark_init
  init_numa_err true calls p' strategy e h = ground arith
  init_numa_err false calls p' strategy e h = ground arith

  drop_inv :
      (b : Bool) (calls : List NativeCall) (p' : Process)
      → drop (process b calls) ≡ ok tt p'
      → (b ≡ true) × (p'.initialized ≡ false)
  unfolding drop call
  drop_inv true calls p' h = ground arith
  drop_inv false calls p' h = ground arith

  alive_lem : (p : Process) (n m : ℕ) → Reachable constants p n m → m ≡ 0 → n ≡ alive p
  unfolding void_logs call
  alive_lem p n m start z = refl
  alive_lem p n m (written q k j r) z = ground (arith, z)
  alive_lem q n m (initialized p p' k j r h) z =
      ground (arith, alive_lem p k j r z, init_inv p.initialized p.calls p' h)
  alive_lem q n m (numa_initialized p p' k j strategy r h) z =
      ground (arith, alive_lem p k j r z, init_numa_inv p.initialized p.calls p' strategy h)
  alive_lem q n m (refused p p' k j e r h) z =
      alive_lem p k j r z ∙ sym (ap alive (init_err p.initialized p.calls p' e h))
  alive_lem q n m (numa_refused p p' k j strategy e r h) z =
      alive_lem p k j r z ∙ sym (ap alive (init_numa_err p.initialized p.calls p' strategy e h))
  alive_lem q n m (voided p k j r) z = alive_lem p (suc k) j r z
  alive_lem q n m (dropped p p' k j r h) z =
      ground (arith, alive_lem p (suc k) j r z, drop_inv p.initialized p.calls p' h)

  alive-init :
      (b : Bool) (calls : List NativeCall)
      → b ≡ true
      → init (process b calls) ≡ err backend_already_initialized (process b calls)
  unfolding init mark_init
  alive-init true calls h = refl
  alive-init false calls h = ground arith

  alive-init_numa :
      (b : Bool) (calls : List NativeCall) (strategy : NumaStrategy)
      → b ≡ true
      → init_numa constants strategy (process b calls)
        ≡ err backend_already_initialized (process b calls)
  unfolding init_numa mark_init
  alive-init_numa true calls strategy h = refl
  alive-init_numa false calls strategy h = ground arith

  alive-drop :
      (b : Bool) (calls : List NativeCall)
      → b ≡ true
      → drop (process b calls) ≡ ok tt (process false (calls ++ llama_backend_free ∷ []))
  unfolding drop call
  alive-drop true calls h = refl
  alive-drop false calls h = ground arith

  init_ok : (calls : List NativeCall) → (p : Process) × (init (process false calls) ≡ ok tt p)
  unfolding init mark_init
  init_ok calls = (_, refl)

  -- In a program that has written no `LlamaBackend {}` itself, while a backend is alive it is the only
  -- one: another initialisation, with a strategy or without, is
  -- refused and changes nothing, and dropping it does not reach `unreachable!`, frees llama.cpp's backend
  -- and makes the next initialisation succeed.
  pub one_backend :
      (p : Process) (n : ℕ) (strategy : NumaStrategy)
      → Reachable constants p (suc n) 0
      → (n ≡ 0)
        × (init p ≡ err backend_already_initialized p)
        × (init_numa constants strategy p ≡ err backend_already_initialized p)
        × ((p' : Process) × (drop p ≡ ok tt p')
            × (p'.calls ≡ p.calls ++ llama_backend_free ∷ [])
            × ((p'' : Process) × (init p' ≡ ok tt p'')))
  one_backend p n strategy r =
      let known = alive_lem p (suc n) 0 r refl in
      let on = the_flag p.initialized n known in
      (
        ground (arith, known),
        alive-init p.initialized p.calls on,
        alive-init_numa p.initialized p.calls strategy on,
        (
          process false (p.calls ++ llama_backend_free ∷ []),
          alive-drop p.initialized p.calls on,
          refl,
          init_ok (p.calls ++ llama_backend_free ∷ []),
        ),
      )
    where
      the_flag : (b : Bool) (n : ℕ) → suc n ≡ (if b then 1 else 0) → b ≡ true
      the_flag true n h = refl
      the_flag false n h = ground arith
