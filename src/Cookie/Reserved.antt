-- ===== src/Cookie/Reserved.antt =====
-- The comparison with the attributes goes over the length of the cookie's own name, so it takes a
-- cookie for an attribute when its name is only the beginning of one.
use tr069_manager.Base.{
  ℕ, ◌≡◌, refl, ap, ◌∙◌, true, false, some, [], ◌∷◌, ◌++◌, arith, CString, codes, strncaseeq,
  length,
}
use tr069_manager.Cookie.{CookieJar, is_attribute, build_token, build_tokens, cookiejar_build}
use tr069_manager.Cookie.Scan.{
  strtok, contains, strtok_last, split_at_equals-append, starts_with_space, skip_spaces_none,
}
use tr069_manager.Cookie.RoundTrip.{contains-append, IsFilled, render-IsFilled, build-filled}

pub data Attribute : Type 0 where
  path max_age expires same_site domain : Attribute

abbrev pub attribute_text : Attribute → CString
attribute_text path = codes "Path"
attribute_text max_age = codes "Max-Age"
attribute_text expires = codes "Expires"
attribute_text same_site = codes "SameSite"
attribute_text domain = codes "Domain"

strncaseeq-prefix : (n rest s : CString) → strncaseeq (n ++ s) (n ++ rest) (length n) ≡ true
unfolding strncaseeq
strncaseeq-prefix [] rest s = refl
strncaseeq-prefix (x ∷ n) rest s = ground (arith, strncaseeq-prefix n rest s)

is_attribute-prefix :
    (a : Attribute) (n rest s : CString)
    → n ++ rest ≡ attribute_text a
    → is_attribute (n ++ s) (length n) ≡ true
unfolding is_attribute
is_attribute-prefix path n rest s h = ground (arith, rw h at (strncaseeq-prefix n rest s))
is_attribute-prefix max_age n rest s h = ground (arith, rw h at (strncaseeq-prefix n rest s))
is_attribute-prefix expires n rest s h = ground (arith, rw h at (strncaseeq-prefix n rest s))
is_attribute-prefix same_site n rest s h = ground (arith, rw h at (strncaseeq-prefix n rest s))
is_attribute-prefix domain n rest s h = ground (arith, rw h at (strncaseeq-prefix n rest s))

-- No attribute holds one of the bytes at which a header is taken apart.
plain_text :
    (a : Attribute)
    → (contains b'=' (attribute_text a) ≡ false)
      × (contains b';' (attribute_text a) ≡ false)
      × (starts_with_space (attribute_text a) ≡ false)
plain_text path = (refl, refl, refl)
plain_text max_age = (refl, refl, refl)
plain_text expires = (refl, refl, refl)
plain_text same_site = (refl, refl, refl)
plain_text domain = (refl, refl, refl)

contains_prefix :
    (x : ℕ) (n rest s : CString) → n ++ rest ≡ s → contains x s ≡ false → contains x n ≡ false
contains_prefix x n rest s e h = ground (arith, contains-append x n rest, ap (contains x) e)

space_prefix :
    (n rest s : CString) → n ++ rest ≡ s → starts_with_space s ≡ false → starts_with_space n ≡ false
space_prefix [] rest s e h = refl
space_prefix (x ∷ n) rest s e h = ap starts_with_space e ∙ h

build_token_prefix :
    (jar : CookieJar) (n v : CString)
    → contains b'=' n ≡ false
    → starts_with_space n ≡ false
    → is_attribute (n ++ b'=' ∷ v) (length n) ≡ true
    → build_token jar (n ++ b'=' ∷ v) ≡ jar
unfolding build_token
build_token_prefix jar n v eq sp r =
    rw (split_at_equals-append n v eq, build_token)
      (rw (skip_spaces_none n sp) (rw r (ground arith)))

-- A header with one cookie whose name is the beginning of an attribute's leaves the jar unchanged.
pub build_prefix :
    (jar : CookieJar) (a : Attribute) (n rest v : CString)
    → n ++ rest ≡ attribute_text a
    → contains b';' v ≡ false
    → cookiejar_build (some jar) (some (n ++ b'=' ∷ v)) ≡ (some jar, true)
unfolding build_tokens
build_prefix jar a n rest v h clean =
    build-filled jar (n ++ b'=' ∷ v) filled
    ∙ ap (λ toks. (some (build_tokens jar toks), true)) (alone (n ++ b'=' ∷ v) filled whole)
    ∙ ap (λ j. (some j, true))
        (build_token_prefix jar n v (contains_prefix b'=' n rest _ h (plain_text a).0)
          (space_prefix n rest _ h (plain_text a).2) (is_attribute-prefix a n rest (b'=' ∷ v) h))
  where
    filled : IsFilled (n ++ b'=' ∷ v)
    filled = render-IsFilled (record { name = n; value = v })

    whole : contains b';' (n ++ b'=' ∷ v) ≡ false
    whole = ground (
      arith,
      contains-append b';' n (b'=' ∷ v),
      clean,
      contains_prefix b';' n rest _ h (plain_text a).1,
    )

    alone : (s : CString) → IsFilled s → contains b';' s ≡ false → strtok s ≡ s ∷ []
    alone [] f k = cc
    alone (x ∷ s) f k = strtok_last x s k
