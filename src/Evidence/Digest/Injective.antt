-- ===== src/Evidence/Digest/Injective.antt =====
-- build_evidence.rs: what the bytes that are hashed say of the evidence.
use llama_cpp_rs.Prelude.{ℕ, ◌≡◌, ◌≢◌, refl, List, [], ◌∷◌, ◌++◌, map, All, arith, ap₂, inl, inr}
use llama_cpp_rs.Prelude.Text.{Text, codes, digits, to_string, Free, Free-cut}
use llama_cpp_rs.Evidence.{
  LinkageEvidence, linkage_canonical, native_as_str, origin_as_str, backend_as_str, NativeLinkage,
  static_, shared, vendored, system, linked, dynamic_modules, GgmlOrigin, BackendLinkage,
  ArtifactEvidence, artifact_canonical, evidence_format,
}
use llama_cpp_rs.Evidence.Digest.{zero_ended, digest_input}
use llama_cpp_rs.Evidence.Digest.Decimal.{to_string_inj, Free-append, Free-digits}

-- A text that the stream can carry: not empty, and without a null byte.
abbrev pub Carried : Text → Type 0
Carried t = (t ≢ []) × Free 0 t

-- The list ends at the null byte that no text begins with.
zero_ended_inj :
    (xs ys : List Text) (r s : Text)
    → All Carried xs
    → All Carried ys
    → zero_ended xs (0 ∷ r) ≡ zero_ended ys (0 ∷ s)
    → (xs ≡ ys) × (r ≡ s)
unfolding zero_ended
zero_ended_inj [] [] r s a b e = ground arith
zero_ended_inj [] ([] ∷ ys) r s a b e = absurd (b.0.0 refl)
zero_ended_inj [] ((y ∷ t) ∷ ys) r s a b e = ground arith
zero_ended_inj ([] ∷ xs) ys r s a b e = absurd (a.0.0 refl)
zero_ended_inj ((x ∷ t) ∷ xs) [] r s a b e = ground arith
zero_ended_inj (x ∷ xs) (y ∷ ys) r s a b e =
    let (p, q) = Free-cut 0 x y _ _ a.0.1 b.0.1 e in
    let (u, v) = zero_ended_inj xs ys r s a.1 b.1 q in (ap₂ ◌∷◌ p u, v)

zero_ended_inj_end :
    (xs ys : List Text)
    → All Carried xs
    → All Carried ys
    → zero_ended xs [] ≡ zero_ended ys []
    → xs ≡ ys
unfolding zero_ended
zero_ended_inj_end [] [] a b e = refl
zero_ended_inj_end [] ([] ∷ ys) a b e = absurd (b.0.0 refl)
zero_ended_inj_end [] ((y ∷ t) ∷ ys) a b e = ground arith
zero_ended_inj_end ([] ∷ xs) ys a b e = absurd (a.0.0 refl)
zero_ended_inj_end ((x ∷ t) ∷ xs) [] a b e = ground arith
zero_ended_inj_end (x ∷ xs) (y ∷ ys) a b e =
    let (p, q) = Free-cut 0 x y _ _ a.0.1 b.0.1 e in ap₂ ◌∷◌ p (zero_ended_inj_end xs ys a.1 b.1 q)

-- An artifact of which the stream keeps the parts apart.
abbrev pub Recorded : ArtifactEvidence → Type 0
Recorded a = Free 0 a.logical_name × Free b'|' a.logical_name × Free 0 a.sha256

-- `native|length|hash` determines the artifact.
artifact_canonical_inj :
    (a b : ArtifactEvidence)
    → Recorded a
    → Recorded b
    → artifact_canonical a ≡ artifact_canonical b
    → a ≡ b
unfolding artifact_canonical to_string
artifact_canonical_inj a b r s e =
    let (names, rest) = Free-cut b'|' a.logical_name b.logical_name _ _ r.1 s.1 e in
    let (lens, hashes) =
      Free-cut b'|' (digits a.byte_len a.byte_len) (digits b.byte_len b.byte_len) _ _
        (Free-digits b'|' a.byte_len a.byte_len (inr (omega arith)) (omega arith))
        (Free-digits b'|' b.byte_len b.byte_len (inr (omega arith)) (omega arith)) rest in
    ground (arith, names, hashes, to_string_inj a.byte_len b.byte_len (unfold to_string in lens))

append_cancel : (xs ys zs : Text) → (xs ++ ys) ≡ (xs ++ zs) → ys ≡ zs
append_cancel [] ys zs e = e
append_cancel (x ∷ xs) ys zs e = append_cancel xs ys zs (ground arith)

native_inj : (p q : NativeLinkage) → native_as_str p ≡ native_as_str q → p ≡ q
unfolding native_as_str
native_inj static_ static_ e = refl
native_inj static_ shared e = ground arith
native_inj shared static_ e = ground arith
native_inj shared shared e = refl

origin_inj : (p q : GgmlOrigin) → origin_as_str p ≡ origin_as_str q → p ≡ q
unfolding origin_as_str
origin_inj vendored vendored e = refl
origin_inj vendored system e = ground arith
origin_inj system vendored e = ground arith
origin_inj system system e = refl

backend_inj : (p q : BackendLinkage) → backend_as_str p ≡ backend_as_str q → p ≡ q
unfolding backend_as_str
backend_inj linked linked e = refl
backend_inj linked dynamic_modules e = ground arith
backend_inj dynamic_modules linked e = ground arith
backend_inj dynamic_modules dynamic_modules e = refl

-- The bytes 0 and `;` stand in no part of a linkage.
abbrev Clean : Text → Type 0
Clean t = Free 0 t × Free b';' t

native-Clean : (p : NativeLinkage) → Clean (native_as_str p)
unfolding native_as_str
native-Clean static_ = omega arith
native-Clean shared = omega arith

origin-Clean : (p : GgmlOrigin) → Clean (origin_as_str p)
unfolding origin_as_str
origin-Clean vendored = omega arith
origin-Clean system = omega arith

backend-Clean : (p : BackendLinkage) → Clean (backend_as_str p)
unfolding backend_as_str
backend-Clean linked = omega arith
backend-Clean dynamic_modules = omega arith

linkage-Free : (l : LinkageEvidence) → Free 0 (linkage_canonical l)
unfolding linkage_canonical
linkage-Free l = Free-append 0 (codes "local=") _ (omega arith) (
    Free-append 0 (native_as_str l.local) _ (native-Clean l.local).0 (
      Free-append 0 (codes ";ggml-origin=") _ (omega arith) (
        Free-append 0 (origin_as_str l.ggml_origin) _ (origin-Clean l.ggml_origin).0 (
          Free-append 0 (codes ";ggml=") _ (omega arith) (
            Free-append 0 (native_as_str l.ggml) _ (native-Clean l.ggml).0
              (Free-append 0 (codes ";backends=") _ (omega arith) (backend-Clean l.backends).0))))))

linkage_canonical_inj : (l k : LinkageEvidence) → linkage_canonical l ≡ linkage_canonical k → l ≡ k
unfolding linkage_canonical
linkage_canonical_inj l k e =
    let e1 = append_cancel (codes "local=") _ _ e in
    let (p, r1) =
      Free-cut b';' (native_as_str l.local) (native_as_str k.local) _ _ (native-Clean l.local).1
        (native-Clean k.local).1 e1 in
    let e2 = append_cancel (codes "ggml-origin=") _ _ r1 in
    let (q, r2) =
      Free-cut b';' (origin_as_str l.ggml_origin) (origin_as_str k.ggml_origin) _ _
        (origin-Clean l.ggml_origin).1 (origin-Clean k.ggml_origin).1 e2 in
    let e3 = append_cancel (codes "ggml=") _ _ r2 in
    let (r, r3) =
      Free-cut b';' (native_as_str l.ggml) (native_as_str k.ggml) _ _ (native-Clean l.ggml).1
        (native-Clean k.ggml).1 e3 in
    let s = append_cancel (codes "backends=") _ _ r3 in
    ground (
      arith,
      native_inj l.local k.local p,
      origin_inj l.ggml_origin k.ggml_origin q,
      native_inj l.ggml k.ggml r,
      backend_inj l.backends k.backends s,
    )

nonempty : (xs : Text) (x : ℕ) (ys : Text) → (xs ++ (x ∷ ys)) ≢ []
nonempty [] x ys e = cc
nonempty (z ∷ xs) x ys e = cc

artifact-Carried : (a : ArtifactEvidence) → Recorded a → Carried (artifact_canonical a)
unfolding artifact_canonical to_string
artifact-Carried a (f, g, h) = (
  nonempty a.logical_name _ _,
  Free-append 0 a.logical_name _ f (
    (omega arith),
    Free-append 0 (digits a.byte_len a.byte_len) _
        (Free-digits 0 a.byte_len a.byte_len (inl (omega arith)) (omega arith)) ((omega arith), h),
  ),
)

artifacts-Carried :
    (xs : List ArtifactEvidence) → All Recorded xs → All Carried (map artifact_canonical xs)
artifacts-Carried [] r = tt
artifacts-Carried (a ∷ xs) (r, rs) = (artifact-Carried a r, artifacts-Carried xs rs)

map-canonical_inj :
    (xs ys : List ArtifactEvidence)
    → All Recorded xs
    → All Recorded ys
    → map artifact_canonical xs ≡ map artifact_canonical ys
    → xs ≡ ys
map-canonical_inj [] [] r s e = refl
map-canonical_inj [] (b ∷ ys) r s e = cc
map-canonical_inj (a ∷ xs) [] r s e = cc
map-canonical_inj (a ∷ xs) (b ∷ ys) (r, rs) (s, ss) e =
    ap₂ ◌∷◌ (artifact_canonical_inj a b r s (cc)) (map-canonical_inj xs ys rs ss (cc))

-- Two evidences that hash the same bytes are the same, where their features are not empty and without
-- a null byte, the names and hashes of their artifacts are without a null byte and the names without a
-- `|`: no name, length, hash or flag can be moved from one part into another unnoticed.
pub digest_input_inj :
    (fs gs : List Text) (l k : LinkageEvidence) (xs ys : List ArtifactEvidence)
    → All Carried fs
    → All Carried gs
    → All Recorded xs
    → All Recorded ys
    → digest_input fs l xs ≡ digest_input gs k ys
    → (fs ≡ gs) × (l ≡ k) × (xs ≡ ys)
unfolding digest_input
digest_input_inj fs gs l k xs ys cf cg ra rb e =
    let e1 = append_cancel (evidence_format ++ (0 ∷ [])) _ _ e in
    let (p, e2) = zero_ended_inj fs gs _ _ cf cg e1 in
    let (q, e3) =
      Free-cut 0 (linkage_canonical l) (linkage_canonical k) _ _ (linkage-Free l) (linkage-Free k)
        e2 in
    let r =
      zero_ended_inj_end (map artifact_canonical xs) (map artifact_canonical ys)
        (artifacts-Carried xs ra) (artifacts-Carried ys rb) e3 in
    (p, linkage_canonical_inj l k q, map-canonical_inj xs ys ra rb r)
