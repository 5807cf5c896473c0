-- ===== src/HiddenStates/Construction.antt =====
-- `Capture::new`: which configurations it accepts, and the memory that an accepted one takes.
use llama_cpp_rs.Prelude.{
  ℕ, suc, ◌*◌, ◌<◌, ◌≤◌, ◌≡◌, ◌≢◌, refl, ap, true, false, List, [], ◌∷◌, ◌++◌, arith, length, All,
  inl, inr, ℤ, replicate, length-replicate,
}
use llama_cpp_rs.Prelude.Result.{ok, Result-cases}
use llama_cpp_rs.HiddenStates.{
  Slot, Capture, Reserve, contains, layers_ok, width_ok, make_slots, new, max_capture_layers,
  max_capture_width, max_capture_bytes, idle_state,
}
use llama_cpp_rs.HiddenStates.Machine.{Native}
use llama_cpp_rs.HiddenStates.Machine.Slots.{layers_of, IsGood}
use llama_cpp_rs.HiddenStates.Machine.Soundness.{IsSound, unready-IsSound}

abbrev pub IsDistinct : List ℕ → Type 0
IsDistinct [] = Unit
IsDistinct (l ∷ ls) = All (λ x. x ≢ l) ls × IsDistinct ls

-- A selection that the constructor takes, for a model of `limit` layers and `width` columns.
pub record IsSelection (limit width : ℕ) (config : List ℕ) : Type 0 where
  pub some_layer : 0 < length config
  pub few : length config ≤ max_capture_layers
  pub below : All (λ l. l < limit) config
  pub distinct : IsDistinct config
  pub positive : 0 < width
  pub narrow : width ≤ max_capture_width
  pub small : width * length config * 4 ≤ max_capture_bytes

contains-append_one :
    (prior : List ℕ) (l x : ℕ)
    → contains (prior ++ l ∷ []) x ≡ false
    → (contains prior x ≡ false) × (x ≢ l)
unfolding contains
contains-append_one [] l x h = (refl, λ e. ground arith)
contains-append_one (y ∷ ys) l x h =
    let (a, b) = contains-append_one ys l x (ground arith) in (ground arith, b)

fresh_split :
    (prior : List ℕ) (l : ℕ) (ls : List ℕ)
    → All (λ x. contains (prior ++ l ∷ []) x ≡ false) ls
    → All (λ x. contains prior x ≡ false) ls × All (λ x. x ≢ l) ls
fresh_split prior l [] h = (tt, tt)
fresh_split prior l (x ∷ xs) (f, h) =
    let (a, b) = contains-append_one prior l x f in
    let (as', bs) = fresh_split prior l xs h in ((a, as'), (b, bs))

layers_ok_inv :
    (limit : ℕ) (prior ls : List ℕ)
    → layers_ok limit prior ls ≡ true
    → All (λ l. l < limit) ls × All (λ x. contains prior x ≡ false) ls × IsDistinct ls
unfolding layers_ok
layers_ok_inv limit prior [] h = (tt, tt, tt)
layers_ok_inv limit prior (l ∷ ls) h =
    let (below, fresh, distinct) = layers_ok_inv limit (prior ++ l ∷ []) ls (ground arith) in
    let (old, other) = fresh_split prior l ls fresh in
    ((ground arith, below), (ground arith, old), (other, distinct))

width_ok_inv :
    (width count : ℕ)
    → width_ok width count ≡ true
    → (0 < width) × (width ≤ max_capture_width) × (width * count * 4 ≤ max_capture_bytes)
unfolding width_ok
width_ok_inv width count h = ground arith

module _ {F : Type 0} (native : Native F) (zero : F) (reserve : Reserve) where
  make_slots_inv :
      (k width : ℕ) (config : List ℕ) (slots : List (Slot F))
      → make_slots zero reserve k width config ≡ ok slots
      → (layers_of slots ≡ config) × All (IsGood native width) slots
  unfolding make_slots
  make_slots_inv k width [] slots h = let is : slots ≡ [] = ground arith in rw is (refl, tt)
  make_slots_inv k width (l ∷ ls) slots h =
      elim (Result-cases (make_slots zero reserve (suc k) width ls)) [
        | inl (later, e) ↦
            let (same, good) = make_slots_inv (suc k) width ls later e in
            let first : Slot F = record {
              snapshot = record { layer = l; values = replicate width zero };
              seen = false;
            } in
            let is : slots ≡ first ∷ later = ground arith in
            rw is (
              ap (◌∷◌ l) same,
              (
                record { wide = length-replicate width zero; finite = λ p. cc; source = λ p. cc },
                good,
              ),
            )
        | inr (x, e) ↦ ground arith
      ]

  -- The constructor returns a capture only for a selection of layers within its limits and a width that
  -- is not negative; the state of the capture is sound, with a slot for each layer of the selection, in
  -- its order.
  pub new_inv :
      (config : List ℕ) (width : ℤ) (limit : ℕ) (c : Capture F)
      → new zero reserve config width limit ≡ ok c
      → (w : ℕ) × (width ≡ ℤ.pos w) × IsSelection limit w config × IsSound native config w c.state
  unfolding new
  new_inv config (ℤ.negsuc n) limit c h = ground arith
  new_inv config (ℤ.pos w) limit c h = elim (Result-cases (make_slots zero reserve 1 w config)) [
    | inl (slots, e) ↦
        let ok_layers : layers_ok limit [] config ≡ true = ground arith in
        let ok_width : width_ok w (length config) ≡ true = ground arith in
        let (below, fresh, distinct) = layers_ok_inv limit [] config ok_layers in
        let (positive, narrow, small) = width_ok_inv w (length config) ok_width in
        let (same, good) = make_slots_inv 1 w config slots e in
        let is : c ≡ record { state = idle_state zero reserve slots; poisoned = false } =
          ground arith in
        (
          w,
          refl,
          record {
            some_layer = ground arith;
            few = ground arith;
            below = below;
            distinct = distinct;
            positive = positive;
            narrow = narrow;
            small = small;
          },
          rw is (unready-IsSound native config w _ same good refl),
        )
    | inr (x, e) ↦ ground arith
  ]
