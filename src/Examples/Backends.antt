-- ===== src/Examples/Backends.antt =====
-- Runs of llama-cpp-2/src/llama_backend.rs.
use llama_cpp_rs.Prelude.{ℕ, ◌≡◌, refl, true, [], ◌∷◌, ◌++◌}
use llama_cpp_rs.Prelude.Run.{ok, err}
use llama_cpp_rs.Backend.{
  NumaStrategy, NumaConstants, backend_already_initialized, llama_backend_init, llama_backend_free,
  Process, call, mark_init, init, init_numa, drop,
}
use llama_cpp_rs.Backend.Lifetime.{started, Reachable, one_backend}

abbrev ggml : NumaConstants
ggml = record {
  ggml_disabled = 0;
  ggml_distribute = 1;
  ggml_isolate = 2;
  ggml_numactl = 3;
  ggml_mirror = 4;
  ggml_count = 5;
}

abbrev running : Process
running = record { initialized = true; calls = llama_backend_init ∷ [] }

running-Reachable : Reachable ggml running 1 0
unfolding init mark_init call
running-Reachable = Reachable.initialized started running 0 0 Reachable.start refl

one_backend_example :
    (◌≡◌ {A = ℕ} 0 0)
    × (init running ≡ err backend_already_initialized running)
    × (init_numa ggml NumaStrategy.mirror running ≡ err backend_already_initialized running)
    × ((p' : Process) × (drop running ≡ ok tt p')
        × (p'.calls ≡ running.calls ++ llama_backend_free ∷ [])
        × ((p'' : Process) × (init p' ≡ ok tt p'')))
one_backend_example = one_backend ggml running 0 NumaStrategy.mirror running-Reachable
