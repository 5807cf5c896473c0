-- ===== src/Params/Devices/Selected.antt =====
-- model/params.rs: the devices that are selected, and the array of their handles.
use mathlib.Core.List.{append_assoc}
use llama_cpp_rs.Prelude.{
  ℕ, zero, suc, ◌+◌, ◌-◌, ◌≡◌, ◌≢◌, ◌<◌, ◌≤◌, refl, sym, ap, ◌∙◌, List, [], ◌∷◌, ◌++◌, map, Option,
  none, some, length, length-append, replicate, set, All, ◌==◌, ==_iff, arith, Bool-cases, inl, inr,
}
use llama_cpp_rs.Prelude.Result.{Result, ok, err}
use llama_cpp_rs.Params.{LlamaModelParams, llama_cpp_max_devices}
use llama_cpp_rs.Params.Devices.{
  Backends, DeviceError, min, set_devices, assign, assigned, with_devices, backend_devices,
  handle_index, indices, devices,
}

-- The handles of the devices are not null, and no two devices share one.
pub record AreHandles (b : Backends) : Type 0 where
  pub handle : ℕ → ℕ
  pub gets : (i : ℕ) → i < b.dev_count → b.dev_get i ≡ some (handle i)
  pub apart : (i j : ℕ) → i < b.dev_count → j < b.dev_count → handle i ≡ handle j → i ≡ j

set-middle :
    (pre post : List (Option ℕ)) (x y : Option ℕ)
    → set (pre ++ (x ∷ post)) (length pre) y ≡ pre ++ (y ∷ post)
set-middle [] post x y = refl
set-middle (z ∷ pre) post x y = ap (λ r. z ∷ r) (set-middle pre post x y)

module _ (b : Backends) (law : AreHandles b) where
  handles : List ℕ → List (Option ℕ)
  handles ds = map (λ d. some (law.handle d)) ds

  -- The loop fills the array from its start, and every index is one of a device.
  assign-ok :
      (ds : List ℕ) (pre slots : List (Option ℕ)) (i n room : ℕ)
      → i ≡ length pre
      → n ≡ length ds + room
      → assign b i ds (pre ++ replicate n none) ≡ ok slots
      → (slots ≡ pre ++ (handles ds ++ replicate room none)) × All (λ d. d < b.dev_count) ds
  unfolding assign handles
  assign-ok [] pre slots i n room at size h =
      let same : n ≡ room = omega (arith, size) in (ground (arith, h, same), tt)
  assign-ok (d ∷ ds) pre slots i zero room at size h = absurd (omega (arith, size))
  assign-ok (d ∷ ds) pre slots i (suc n) room at size h =
      let below : d < b.dev_count = ground (arith, h) in
      let wrote : set (pre ++ (none ∷ replicate n none)) i (b.dev_get d)
          ≡ (pre ++ (some (law.handle d) ∷ [])) ++ replicate n none =
        ap (λ k. set (pre ++ (none ∷ replicate n none)) k (b.dev_get d)) at
        ∙ set-middle pre (replicate n none) none (b.dev_get d)
        ∙ ap (λ x. pre ++ (x ∷ replicate n none)) (law.gets d below)
        ∙ sym (append_assoc pre (some (law.handle d) ∷ []) (replicate n none)) in
      let rest : assign b (suc i) ds ((pre ++ (some (law.handle d) ∷ [])) ++ replicate n none)
          ≡ ok slots =
        ground (arith, h, wrote) in
      let (is, all) =
        assign-ok ds (pre ++ (some (law.handle d) ∷ [])) slots (suc i) n room
          (omega (arith, at, length-append pre (some (law.handle d) ∷ []))) (omega (arith, size))
          rest in
      (
        is ∙ append_assoc pre (some (law.handle d) ∷ []) (handles ds ++ replicate room none),
        (below, all),
      )

  -- The handle of a device is found at its index.
  handle_index-handle :
      (n i d : ℕ)
      → i ≤ d
      → d < i + n
      → i + n ≤ b.dev_count
      → handle_index i (law.handle d) (backend_devices b i n) ≡ some d
  unfolding handle_index backend_devices
  handle_index-handle zero i d lo hi end = absurd (omega arith)
  handle_index-handle (suc n) i d lo hi end =
      let here = law.gets i (omega arith) in
      elim (Bool-cases (i == d)) [
        | inl e ↦ let same : i ≡ d = ground (arith, e) in ground (arith, here, same)
        | inr e ↦
            let other : law.handle i ≢ law.handle d =
              λ p. ground (arith, law.apart i d (omega arith) (omega arith) p, e) in
            let later =
              handle_index-handle n (suc i) d (ground (arith, e)) (omega arith) (omega arith) in
            ground (arith, here, other, later, ==_iff (law.handle i) (law.handle d))
      ]

  indices-handles :
      (ds : List ℕ) (room : ℕ)
      → All (λ d. d < b.dev_count) ds
      → indices (backend_devices b 0 b.dev_count) (handles ds ++ replicate room none) ≡ ds
  unfolding indices handles
  indices-handles [] zero all = refl
  indices-handles [] (suc room) all = refl
  indices-handles (d ∷ ds) room (below, all) = ground (
    arith,
    handle_index-handle b.dev_count 0 d (omega arith) (omega arith) (omega arith),
    indices-handles ds room all,
  )

  assigned-inv :
      (p q : LlamaModelParams) (r : Result DeviceError (List (Option ℕ)))
      → assigned b p r ≡ ok q
      → (slots : List (Option ℕ)) × (r ≡ ok slots) × (q ≡ set_devices slots p)
  unfolding assigned
  assigned-inv p q (ok slots) h = (slots, refl, ground arith)
  assigned-inv p q (err e) h = cc

  -- Where the handles of the devices are not null and differ, a selection that `with_devices`
  -- takes has at most 16 indices, all of them of devices, and `devices` gives it back in its order; the array
  -- that is passed to llama.cpp has the handles first and null pointers in what room is left, so a
  -- selection of 16 devices has no null pointer at its end.
  pub with_devices-devices :
      (ds : List ℕ) (p q : LlamaModelParams)
      → with_devices b ds p ≡ ok q
      → (length ds ≤ llama_cpp_max_devices)
        × All (λ d. d < b.dev_count) ds
        × (devices b q ≡ ds)
        × (q.devices
            ≡ map (λ d. some (law.handle d)) ds
              ++ replicate (llama_cpp_max_devices - length ds) none)
  unfolding with_devices devices min handles
  with_devices-devices ds p q h =
      let small : length ds ≤ llama_cpp_max_devices = ground (arith, h) in
      let made : assigned b p (assign b 0 ds (replicate llama_cpp_max_devices none)) ≡ ok q =
        ground (arith, h) in
      let (slots, e, is) = assigned-inv p q _ made in
      let room = llama_cpp_max_devices - length ds in
      let (filled, all) =
        assign-ok ds [] slots 0 llama_cpp_max_devices room refl (omega (arith, small)) e in
      let held : q.devices ≡ map (λ d. some (law.handle d)) ds ++ replicate room none =
        ap (λ (r : LlamaModelParams). r.devices) is ∙ (unfold set_devices handles in filled) in
      (
        small,
        all,
        ap (indices (backend_devices b 0 b.dev_count)) held ∙ indices-handles ds room all,
        held,
      )
