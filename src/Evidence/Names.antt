-- ===== src/Evidence/Names.antt =====
-- build_evidence.rs: `validate_logical_name`, and what it lets through.
use llama_cpp_rs.Prelude.{
  ℕ, ◌≡◌, refl, ◌≢◌, ◌≤◌, ◌<◌, Bool, true, false, not, ◌&&◌, ◌||◌, List, [], ◌∷◌, length, leb, ltb,
  ◌==◌, if◌then◌else◌, ==_iff, Bool-cases, inl, inr, arith, All,
}
use llama_cpp_rs.Prelude.Result.{Result, ok, err}
use llama_cpp_rs.Prelude.Text.{Text, codes, text_eqb, text_eqb_iff, split, cons_head, Free}
use llama_cpp_rs.Evidence.{
  PathBuf, EvidenceError, name_length, name_not_canonical, name_component, path_not_utf8,
  path_line_break, max_logical_name_bytes,
}

-- A byte that a name may hold.
unfoldable pub is_name_byte : ℕ → Bool
is_name_byte c =
    (leb b'a' c && leb c b'z')
    || ((leb b'0' c && leb c b'9')
        || ((c == b'-') || ((c == b'_') || ((c == b'/') || (c == b'.')))))

unfoldable pub all_bytes : (ℕ → Bool) → Text → Bool
all_bytes f [] = true
all_bytes f (c ∷ cs) = f c && all_bytes f cs

unfoldable pub any_bytes : (ℕ → Bool) → Text → Bool
any_bytes f [] = false
any_bytes f (c ∷ cs) = f c || any_bytes f cs

-- A component that a path would not keep.
unfoldable pub is_bad_component : Text → Bool
is_bad_component c = text_eqb c [] || (text_eqb c (codes ".") || text_eqb c (codes ".."))

unfoldable pub any_bad : List Text → Bool
any_bad [] = false
any_bad (c ∷ cs) = is_bad_component c || any_bad cs

unfoldable pub validate_logical_name : Text → Result EvidenceError (Unit {0})
validate_logical_name name =
    if (length name == 0) || ltb max_logical_name_bytes (length name)
    then err (name_length name)
    else (if not (all_bytes is_name_byte name)
        then err (name_not_canonical name)
        else (if any_bad (split b'/' name) then err (name_component name) else ok tt))

unfoldable pub is_line_break : ℕ → Bool
is_line_break c = (c == 10) || (c == 13)

unfoldable pub cargo_directive_path : PathBuf → Result EvidenceError Text
cargo_directive_path path =
    if path.is_utf8
    then (if any_bytes is_line_break path.bytes then err path_line_break else ok path.bytes)
    else err path_not_utf8

-- A component of a relative path that leads into a directory or to a file, and nowhere else.
abbrev pub Plain : Text → Type 0
Plain c = (c ≢ []) × (c ≢ codes ".") × (c ≢ codes "..") × Free b'/' c

all_bytes-Free :
    (c : ℕ) (t : Text) → is_name_byte c ≡ false → all_bytes is_name_byte t ≡ true → Free c t
unfolding all_bytes
all_bytes-Free c [] p q = tt
all_bytes-Free c (x ∷ t) p q = elim (Bool-cases (x == c)) [
  | inl e ↦ ground (arith, ==_iff x c)
  | inr e ↦ ground (arith, all_bytes-Free c t)
]

-- No part of a split holds its separator.
cons_head-Free :
    (c x : ℕ) (ps : List Text) → x ≢ c → All (Free c) ps → All (Free c) (cons_head x ps)
unfolding cons_head
cons_head-Free c x [] h p = (((h, tt)), tt)
cons_head-Free c x (q ∷ ps) h (f, p) = ((h, f), p)

split-Free : (c : ℕ) (t : Text) → All (Free c) (split c t)
unfolding split
split-Free c [] = (tt, tt)
split-Free c (x ∷ t) = elim (Bool-cases (x == c)) [
  | inl e ↦ rw e (tt, split-Free c t)
  | inr e ↦ rw e (cons_head-Free c x (split c t) (ground arith) (split-Free c t))
]

any_bad-Plain : (ps : List Text) → All (Free b'/') ps → any_bad ps ≡ false → All Plain ps
unfolding any_bad is_bad_component
any_bad-Plain [] p q = tt
any_bad-Plain (c ∷ ps) (f, p) q = ground (
  arith,
  any_bad-Plain ps p,
  text_eqb_iff c [],
  text_eqb_iff c (codes "."),
  text_eqb_iff c (codes ".."),
)

-- A name that the check accepts.
abbrev pub IsCanonical : Text → Type 0
IsCanonical name =
    (0 < length name)
    × (length name ≤ max_logical_name_bytes)
    × Free 0 name
    × Free b'|' name
    × All Plain (split b'/' name)

-- A logical name that is accepted has one to 96 bytes, none of them a null byte or a `|`, and each
-- of its parts between slashes is a name of a file or directory: not empty, not `.` and not `..`.
pub validate_logical_name-IsCanonical :
    (name : Text) → validate_logical_name name ≡ ok tt → IsCanonical name
unfolding validate_logical_name
validate_logical_name-IsCanonical name h = ground (
  arith,
  all_bytes-Free 0 name (unfold is_name_byte in refl),
  all_bytes-Free b'|' name (unfold is_name_byte in refl),
  any_bad-Plain (split b'/' name) (split-Free b'/' name),
)
