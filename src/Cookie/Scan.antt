-- ===== src/Cookie/Scan.antt =====
-- How src/dmmain/cwmpd_cookie.c takes a Set-Cookie header apart: strtok at ";", strchr at "=".
use tr069_manager.Base.{
  ℕ, ◌≡◌, refl, inl, inr, Bool, false, ◌||◌, Option, none, some, List, [], ◌∷◌, ◌++◌, arith, ◌==◌,
  if◌then◌else◌, Bool-cases, Option-cases, CString, All,
}

-- strtok gives the longest runs of bytes that are no ";", and no empty one.
abbrev push_token : CString → List CString → List CString
push_token [] rest = rest
push_token (c ∷ t) rest = (c ∷ t) ∷ rest

-- The run that the text begins with, and the tokens after it.
segments : CString → CString × List CString
segments [] = ([], [])
segments (c ∷ s) =
    let (t, rest) = segments s in if c == b';' then ([], push_token t rest) else (c ∷ t, rest)

unfoldable pub strtok : CString → List CString
unfolding segments
strtok s = let (t, rest) = segments s in push_token t rest

-- strchr(s, '='): what stands before the first "=", and what stands after it.
unfoldable pub split_at_equals : CString → Option (CString × CString)
split_at_equals [] = none
split_at_equals (c ∷ s) =
    let rest = split_at_equals s in
    if c == b'=' then some ([], s) else elim rest [ none ↦ none | some (a, b) ↦ some (c ∷ a, b) ]

-- while(*start == ' ') start++
unfoldable pub skip_spaces : CString → CString
skip_spaces [] = []
skip_spaces (c ∷ s) = let rest = skip_spaces s in if c == b' ' then rest else c ∷ s

abbrev pub contains : ℕ → CString → Bool
contains x [] = false
contains x (c ∷ s) = c == x || contains x s

segments-append :
    (t s : CString) → contains b';' t ≡ false → segments (t ++ b';' ∷ s) ≡ (t, strtok s)
unfolding segments strtok
segments-append [] s h = refl
segments-append (c ∷ t) s h = ground (arith, segments-append t s)

segments_last : (t : CString) → contains b';' t ≡ false → segments t ≡ (t, [])
unfolding segments
segments_last [] h = refl
segments_last (c ∷ t) h = ground (arith, segments_last t)

-- A text with a first byte and no ";" is the first token of what follows it.
pub strtok-append :
    (c : ℕ) (t s : CString)
    → contains b';' (c ∷ t) ≡ false
    → strtok ((c ∷ t) ++ b';' ∷ s) ≡ (c ∷ t) ∷ strtok s
unfolding strtok
strtok-append c t s h = rw (segments-append (c ∷ t) s h)

pub strtok_last :
    (c : ℕ) (t : CString) → contains b';' (c ∷ t) ≡ false → strtok (c ∷ t) ≡ (c ∷ t) ∷ []
unfolding strtok
strtok_last c t h = rw (segments_last (c ∷ t) h)

pub split_at_equals-append :
    (n v : CString) → contains b'=' n ≡ false → split_at_equals (n ++ b'=' ∷ v) ≡ some (n, v)
unfolding split_at_equals
split_at_equals-append [] v h = refl
split_at_equals-append (c ∷ n) v h = ground (arith, split_at_equals-append n v)

-- No token holds a ";".
abbrev NoSemicolon : CString → Type 0
NoSemicolon s = contains b';' s ≡ false

pub push_token-NoSemicolon :
    (t : CString) (rest : List CString)
    → NoSemicolon t
    → All (λ s. contains b';' s ≡ false) rest
    → All (λ s. contains b';' s ≡ false) (push_token t rest)
push_token-NoSemicolon [] rest h k = k
push_token-NoSemicolon (c ∷ t) rest h k = (h, k)

segments-NoSemicolon :
    (s : CString) → NoSemicolon (segments s).0 × All (λ s. contains b';' s ≡ false) (segments s).1
unfolding segments
segments-NoSemicolon [] = (refl, tt)
segments-NoSemicolon (c ∷ s) =
    let ih = segments-NoSemicolon s in
    elim (Bool-cases (c == b';')) [
      | inl e ↦ rw e (refl, push_token-NoSemicolon (segments s).0 (segments s).1 ih.0 ih.1)
      | inr e ↦ rw e (ground (arith, ih.0), ih.1)
    ]

pub strtok-NoSemicolon : (s : CString) → All (λ s. contains b';' s ≡ false) (strtok s)
unfolding strtok
strtok-NoSemicolon s =
    push_token-NoSemicolon (segments s).0 (segments s).1 (segments-NoSemicolon s).0
      (segments-NoSemicolon s).1

-- Where a token splits, its two parts hold what the token holds, and the first has no "=".
pub split_at_equals_parts :
    (x : ℕ) (s a b : CString)
    → split_at_equals s ≡ some (a, b)
    → contains x s ≡ false
    → (contains b'=' a ≡ false) × (contains x a ≡ false) × (contains x b ≡ false)
unfolding split_at_equals
split_at_equals_parts x [] a b e h = cc
split_at_equals_parts x (c ∷ s) a b e h = elim (Option-cases (split_at_equals s)) [
  | inl q ↦ ground (arith, q)
  | inr ((a', b'), q) ↦ ground (arith, q, split_at_equals_parts x s a' b' q)
]

pub contains-skip_spaces :
    (x : ℕ) (s : CString) → contains x s ≡ false → contains x (skip_spaces s) ≡ false
unfolding skip_spaces
contains-skip_spaces x [] h = refl
contains-skip_spaces x (c ∷ s) h = ground (arith, contains-skip_spaces x s)

abbrev pub starts_with_space : CString → Bool
starts_with_space [] = false
starts_with_space (c ∷ s) = c == b' '

pub starts_with_space-skip_spaces : (s : CString) → starts_with_space (skip_spaces s) ≡ false
unfolding skip_spaces
starts_with_space-skip_spaces [] = refl
starts_with_space-skip_spaces (c ∷ s) = ground (arith, starts_with_space-skip_spaces s)

pub skip_spaces_none : (s : CString) → starts_with_space s ≡ false → skip_spaces s ≡ s
unfolding skip_spaces
skip_spaces_none [] h = refl
skip_spaces_none (c ∷ s) h = ground arith
