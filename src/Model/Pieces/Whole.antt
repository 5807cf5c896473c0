-- ===== src/Model/Pieces/Whole.antt =====
-- model.rs: the pieces of tokens, where llama.cpp keeps to its documentation.
use llama_cpp_rs.Prelude.{
  ℕ, zero, suc, ◌-◌, ◌≡◌, ◌<◌, ◌≤◌, refl, ap, ◌∙◌, Bool, List, [], ◌∷◌, ◌++◌, Option, none, some,
  length, drop, replicate, ltb, arith, take-append, if◌then◌else◌, ℤ, i32_limit, Bool-cases,
  Option-cases, inl, inr, All,
}
use llama_cpp_rs.Prelude.Run.{ok, err, fault, Method}
use llama_cpp_rs.Prelude.Text.{Text}
use llama_cpp_rs.Session.{nul_position}
use llama_cpp_rs.Model.{Special, is_tokenize, negated_usize}
use llama_cpp_rs.Model.Pieces.{
  TokenToStringError, unknown_token_type, insufficient_buffer_space, Pieces, buffer_after,
  taken_back, sized, strip_count, token_to_piece_bytes, retried, token_to_bytes, collect_pieces,
  tokens_to_str,
}

-- What `llama_token_to_piece` returns for a piece: its length, and it writes the piece, where it fits,
-- and else the negated length.
unfoldable pub answer : Text → ℕ → ℤ × Text
answer piece len =
    if ltb len (length piece)
    then (ℤ.negsuc (length piece - 1), [])
    else (ℤ.pos (length piece), piece)

-- Each token has a piece, which an `i32` measures.
pub record Speaks (pieces : Pieces) : Type 0 where
  pub piece : ℤ → ℕ → Bool → Text
  pub answers :
      (token : ℤ) (len strip : ℕ) (special : Bool)
      → pieces token len strip special ≡ answer (piece token strip special) len
  pub small :
      (token : ℤ) (strip : ℕ) (special : Bool) → length (piece token strip special) < i32_limit

-- What a call for the piece is to return: the piece, but an error where it is empty; and where it
-- has a null byte, the wrapper reads the length of its own buffer wrong, which is undefined.
unfoldable pub whole : {S : Type 0} → Text → Method S TokenToStringError Text
whole [] s = err unknown_token_type s
whole (c ∷ cs) s = elim (nul_position (c ∷ cs)) [ some i ↦ fault | none ↦ ok (c ∷ cs) s ]

-- A null byte of the buffer stands in the piece, since the rest are stars.
nul_position-replicate : (n : ℕ) → nul_position (replicate n b'*') ≡ none
unfolding nul_position
nul_position-replicate zero = refl
nul_position-replicate (suc n) = ground (arith, nul_position-replicate n)

drop-replicate : (k n : ℕ) → drop {A = ℕ} k (replicate n b'*') ≡ replicate (n - k) b'*'
drop-replicate zero n = let e : n ≡ n - 0 = omega arith in ap (λ m. replicate m b'*') e
drop-replicate (suc k) zero =
    let e : 0 ≡ 0 - suc k = omega arith in ap (λ (m : ℕ). replicate {A = ℕ} m b'*') e
drop-replicate (suc k) (suc n) =
    let e : n - k ≡ suc n - suc k = omega arith in
    drop-replicate k n ∙ ap (λ (m : ℕ). replicate {A = ℕ} m b'*') e

nul_position-append :
    (xs ys : Text) → nul_position ys ≡ none → (nul_position (xs ++ ys) ≡ nul_position xs)
unfolding nul_position
nul_position-append [] ys h = h
nul_position-append (zero ∷ xs) ys h = refl
nul_position-append (suc x ∷ xs) ys h = ground (arith, nul_position-append xs ys h)

module _ {S : Type 0} where
  taken_back-whole :
      (n : ℕ) (c : ℕ) (cs : Text) (s : S)
      → length (c ∷ cs) ≤ n
      → taken_back n (length (c ∷ cs)) (c ∷ cs) s ≡ whole (c ∷ cs) s
  unfolding taken_back whole buffer_after
  taken_back-whole n c cs s h =
      let stars = drop (length (c ∷ cs)) (replicate n b'*') in
      let none_there : nul_position stars ≡ none =
        ap nul_position (drop-replicate (length (c ∷ cs)) n)
        ∙ nul_position-replicate (n - length (c ∷ cs)) in
      let same = nul_position-append (c ∷ cs) stars none_there in
      let back = take-append (c ∷ cs) stars in
      elim (Option-cases (nul_position (c ∷ cs))) [
        | inl e ↦ ground (arith, same, back, e)
        | inr (i, e) ↦ ground (arith, same, back, e)
      ]

  sized-answer :
      (n : ℕ) (piece : Text) (s : S)
      → sized n (answer piece n) s ≡ (
          if ltb n (length piece)
          then err (insufficient_buffer_space (ℤ.negsuc (length piece - 1))) s
          else whole piece s)
  unfolding sized answer
  sized-answer n [] s = elim (Bool-cases (ltb n 0)) [
    | inl e ↦ ground arith
    | inr e ↦ unfold whole in ground arith
  ]
  sized-answer n (c ∷ cs) s = elim (Bool-cases (ltb n (length (c ∷ cs)))) [
    | inl e ↦ ground (arith, e)
    | inr e ↦ ground (arith, e, taken_back-whole n c cs s (ground arith))
  ]

module _ {S : Type 0} (pieces : Pieces) (law : Speaks pieces) where
  -- The bytes of a token are its piece whenever the buffer holds it, and else the error tells the size.
  token_to_piece_bytes_lem :
      (token : ℤ) (n : ℕ) (special : Bool) (lstrip : Option ℕ) (s : S)
      → n < i32_limit
      → token_to_piece_bytes pieces token n special lstrip s ≡ (
          if ltb n (length (law.piece token (strip_count lstrip) special))
          then err
              (insufficient_buffer_space
                (ℤ.negsuc (length (law.piece token (strip_count lstrip) special) - 1)))
              s
          else whole (law.piece token (strip_count lstrip) special) s)
  unfolding token_to_piece_bytes
  token_to_piece_bytes_lem token n special lstrip s small = ground (
    arith,
    law.answers token n (strip_count lstrip) special,
    sized-answer n (law.piece token (strip_count lstrip) special) s,
  )

  retried_fits :
      (token : ℤ) (special : Bool) (lstrip : Option ℕ) (piece : Text) (s : S)
      → retried pieces token special lstrip (whole piece s) ≡ whole piece s
  unfolding retried whole
  retried_fits token special lstrip [] s = refl
  retried_fits token special lstrip (c ∷ cs) s = elim (Option-cases (nul_position (c ∷ cs))) [
    | inl e ↦ ground (arith, e)
    | inr (i, e) ↦ ground (arith, e)
  ]

  retried-whole :
      (token : ℤ) (special : Bool) (lstrip : Option ℕ) (s : S)
      → retried pieces token special lstrip (token_to_piece_bytes pieces token 8 special lstrip s)
        ≡ whole (law.piece token (strip_count lstrip) special) s
  unfolding retried negated_usize
  retried-whole token special lstrip s =
      let piece = law.piece token (strip_count lstrip) special in
      let small = law.small token (strip_count lstrip) special in
      let first = token_to_piece_bytes_lem token 8 special lstrip s (omega arith) in
      elim (Bool-cases (ltb 8 (length piece))) [
        | inr fits ↦
            let whole_first : token_to_piece_bytes pieces token 8 special lstrip s ≡ whole piece s =
              ground (arith, first, fits) in
            ap (retried pieces token special lstrip) whole_first
            ∙ retried_fits token special lstrip piece s
        | inl short ↦
            let again = token_to_piece_bytes_lem token (length piece) special lstrip s small in
            let asked : token_to_piece_bytes pieces token 8 special lstrip s
                ≡ err (insufficient_buffer_space (ℤ.negsuc (length piece - 1))) s =
              ground (arith, first, short) in
            let n : suc (length piece - 1) ≡ length piece = ground (arith, short) in
            rw asked (ground (arith, n, again, small))
      ]

  -- Where llama.cpp writes each piece that fits, and answers for another with its negated size:
  -- `token_to_bytes` gives the whole piece of a token, whatever its length, if the piece is nonempty and
  -- without a null byte. For an empty piece it is an error, and what it does for a piece with a null byte
  -- is undefined.
  pub token_to_bytes-whole :
      (token : ℤ) (special : Special) (s : S)
      → token_to_bytes pieces token special s ≡ whole (law.piece token 0 (is_tokenize special)) s
  unfolding token_to_bytes
  token_to_bytes-whole token special s =
      retried-whole token (is_tokenize special) none s
      ∙ ap (λ k. whole (law.piece token k (is_tokenize special)) s) (unfold strip_count in refl)

module _ (pieces : Pieces) (law : Speaks pieces) where
  -- A token whose piece a buffer of eight bytes holds.
  abbrev pub IsShort : Special → ℤ → Type 0
  IsShort special t =
      (0 < length (law.piece t 0 (is_tokenize special)))
      × (length (law.piece t 0 (is_tokenize special)) ≤ 8)
      × (nul_position (law.piece t 0 (is_tokenize special)) ≡ none)

whole_ok :
    {S : Type 0} (piece : Text) (s : S)
    → 0 < length piece
    → nul_position piece ≡ none
    → whole piece s ≡ ok piece s
unfolding whole
whole_ok [] s p n = absurd (omega arith)
whole_ok (c ∷ cs) s p n = ground (arith, n)

module _ {S : Type 0} (pieces : Pieces) (law : Speaks pieces) where
  short_bytes :
      (special : Special) (t : ℤ) (s : S)
      → IsShort pieces law special t
      → token_to_piece_bytes pieces t 8 (is_tokenize special) none s
        ≡ ok (law.piece t 0 (is_tokenize special)) s
  unfolding strip_count
  short_bytes special t s (p, q, n) = ground (
    arith,
    token_to_piece_bytes_lem pieces law t 8 (is_tokenize special) none s,
    whole_ok (law.piece t 0 (is_tokenize special)) s p n,
  )

  collect_pieces-long :
      (before rest : List ℤ) (t : ℤ) (special : Special) (s : S)
      → All (IsShort pieces law special) before
      → 8 < length (law.piece t 0 (is_tokenize special))
      → collect_pieces pieces special (before ++ (t ∷ rest)) s
        ≡ err
            (insufficient_buffer_space
              (ℤ.negsuc (length (law.piece t 0 (is_tokenize special)) - 1)))
            s
  unfolding collect_pieces strip_count
  collect_pieces-long [] rest t special s a h =
      ground (arith, token_to_piece_bytes_lem pieces law t 8 (is_tokenize special) none s)
  collect_pieces-long (b ∷ before) rest t special s (p, a) h =
      ground (arith, short_bytes special b s p, collect_pieces-long before rest t special s a h)

  -- `tokens_to_str` does not ask again: after tokens with short pieces, the first token whose piece is
  -- longer than eight bytes makes it fail, although `token_to_bytes` gives the bytes of that token.
  pub tokens_to_str-fails :
      (is_utf8 : Text → Bool) (before rest : List ℤ) (t : ℤ) (special : Special) (s : S)
      → All (IsShort pieces law special) before
      → 8 < length (law.piece t 0 (is_tokenize special))
      → nul_position (law.piece t 0 (is_tokenize special)) ≡ none
      → (tokens_to_str pieces is_utf8 (before ++ (t ∷ rest)) special s
          ≡ err
              (insufficient_buffer_space
                (ℤ.negsuc (length (law.piece t 0 (is_tokenize special)) - 1)))
              s)
        × (token_to_bytes pieces t special s ≡ ok (law.piece t 0 (is_tokenize special)) s)
  unfolding tokens_to_str
  tokens_to_str-fails is_utf8 before rest t special s a h n = (
    ground (arith, collect_pieces-long before rest t special s a h),
    token_to_bytes-whole pieces law t special s
        ∙ whole_ok (law.piece t 0 (is_tokenize special)) s (omega arith) n,
  )
