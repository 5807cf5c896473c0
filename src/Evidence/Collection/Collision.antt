-- ===== src/Evidence/Collection/Collision.antt =====
-- build_evidence.rs: two evidences with one digest.
use mathlib.Core.Path.{subst}
use llama_cpp_rs.Prelude.{
  ℕ, zero, suc, ◌≡◌, ◌≢◌, refl, sym, ◌∙◌, Bool, true, false, ◌&&◌, List, [], ◌∷◌, All, arith,
  Bool-cases, ◌⊎◌, inl, inr,
}
use llama_cpp_rs.Prelude.Run.{ok}
use llama_cpp_rs.Prelude.Text.{Text, text_eqb, text_eqb_iff, Free}
use llama_cpp_rs.Evidence.{ArtifactInput, ArtifactEvidence, BuildEvidence, LinkageEvidence}
use llama_cpp_rs.Evidence.Features.{known_features, is_known}
use llama_cpp_rs.Evidence.Features.Sorted.{Known, validate_features_iff}
use llama_cpp_rs.Evidence.Files.{FileSystem}
use llama_cpp_rs.Evidence.Digest.{digest_input, evidence_digest}
use llama_cpp_rs.Evidence.Digest.Injective.{Carried, Recorded, digest_input_inj}
use llama_cpp_rs.Evidence.Collection.{World, collect}
use llama_cpp_rs.Evidence.Collection.Sound.{IsFiled, collect-Records}

-- Two texts with one hash.
abbrev pub HasCollision : (Text → Text) → Type 0
HasCollision sha256 = (s : Text) × (t : Text) × (s ≢ t) × (sha256 s ≡ sha256 t)

is_carried : Text → Bool
is_carried [] = false
is_carried (zero ∷ t) = false
is_carried (suc c ∷ []) = true
is_carried (suc c ∷ (d ∷ t)) = is_carried (d ∷ t)

is_carried-Carried : (t : Text) → is_carried t ≡ true → Carried t
unfolding is_carried
is_carried-Carried [] h = cc
is_carried-Carried (zero ∷ t) h = cc
is_carried-Carried (suc c ∷ []) h = ground arith
is_carried-Carried (suc c ∷ (d ∷ t)) h = ground (arith, is_carried-Carried (d ∷ t) h)

all_carried : List (Text × Text) → Bool
all_carried [] = true
all_carried ((k, f) ∷ table) = is_carried f && all_carried table

is_known-Carried :
    (table : List (Text × Text)) (f : Text)
    → all_carried table ≡ true
    → is_known table f ≡ true
    → Carried f
unfolding is_known all_carried
is_known-Carried [] f c h = cc
is_known-Carried ((k, g) ∷ table) f c h = elim (Bool-cases (text_eqb g f)) [
  | inl e ↦ subst Carried ((text_eqb_iff g f).0 e) (is_carried-Carried g (ground arith))
  | inr e ↦ is_known-Carried table f (ground arith) (ground (arith, h, e))
]

Known-Carried : (fs : List Text) → Known known_features fs → All Carried fs
unfolding all_carried is_carried
Known-Carried [] k = tt
Known-Carried (f ∷ fs) (p, k) = (is_known-Carried known_features f refl p, Known-Carried fs k)

module _ {S F : Type 0} (fs : FileSystem S F) (sha256 : Text → Text) (fuel : ℕ)
    (hex : (t : Text) → Free 0 (sha256 t)) where
  filed-Recorded : (xs : List ArtifactEvidence) → All (IsFiled fs sha256 fuel) xs → All Recorded xs
  filed-Recorded [] f = tt
  filed-Recorded (a ∷ xs) (((_, _, z, b, _), (t, h)), f) =
      ((z, b, subst (Free 0) (sym h) (hex t)), filed-Recorded xs f)

  same_evidence :
      (d e : BuildEvidence)
      → d.features ≡ e.features
      → d.linkage ≡ e.linkage
      → d.artifacts ≡ e.artifacts
      → d.digest ≡ e.digest
      → d ≡ e
  same_evidence d e p q r s = ground arith

  -- Where hashes hold no null byte, two evidences that `collect` returned, from any inputs and in any
  -- worlds, are equal in features, linkage and artifacts when their digests are equal, or two
  -- texts that differ have one hash.
  pub collect-collision :
      (fs1 fs2 : List Text) (l1 l2 : LinkageEvidence) (xs ys : List ArtifactInput) (w v : World S)
      {w' v' : World S} {d e : BuildEvidence}
      → collect fs sha256 fuel fs1 l1 xs w ≡ ok d w'
      → collect fs sha256 fuel fs2 l2 ys v ≡ ok e v'
      → d.digest ≡ e.digest
      → (d ≡ e) ⊎ HasCollision sha256
  unfolding evidence_digest
  collect-collision fs1 fs2 l1 l2 xs ys w v {d = d} {e = e} h g same =
      let p = collect-Records fs sha256 fuel fs1 l1 xs w h in
      let q = collect-Records fs sha256 fuel fs2 l2 ys v g in
      let s = digest_input fs1 l1 d.artifacts in
      let t = digest_input fs2 l2 e.artifacts in
      elim (Bool-cases (text_eqb s t)) [
        | inl one ↦
            let (a, b, c) =
              digest_input_inj fs1 fs2 l1 l2 d.artifacts e.artifacts
                (Known-Carried fs1 ((validate_features_iff fs1).0 p.valid).0)
                (Known-Carried fs2 ((validate_features_iff fs2).0 q.valid).0)
                (filed-Recorded d.artifacts p.filed) (filed-Recorded e.artifacts q.filed)
                ((text_eqb_iff s t).0 one) in
            inl (
              same_evidence d e (p.of_features ∙ a ∙ sym q.of_features)
                (p.of_linkage ∙ b ∙ sym q.of_linkage) c same)
        | inr other ↦ inr (
          s,
          t,
          λ r. ground (arith, r, other, text_eqb_iff s t),
          sym p.digests ∙ same ∙ q.digests,
        )
      ]
