-- ===== src/Cookie/Invariant.antt =====
-- What every jar that headers built satisfies.
use mathlib.Core.List.{append-nil, append_assoc}
use tr069_manager.Base.{
  ℕ, zero, suc, ◌≡◌, refl, ◌∙◌, ◌↔◌, inl, inr, Bool, false, not, ◌&&◌, ◌||◌, Option, none, some,
  List, [], ◌∷◌, ◌++◌, arith, ltb, Bool-cases, Option-cases, CString, codes, streq, strncaseeq, All,
  length, is_empty,
}
use tr069_manager.Cookie.{
  Cookie, CookieJar, find_name, search_cookie, add_cookie, update_cookie, is_attribute,
  store_cookie, build_token, build_tokens, cookiejar_build, render,
}
use tr069_manager.Cookie.Scan.{
  strtok, split_at_equals, skip_spaces, contains, strtok-NoSemicolon, split_at_equals_parts,
  contains-skip_spaces, starts_with_space, starts_with_space-skip_spaces,
}

-- A cookie that reads back as it was written.
pub record IsGood (c : Cookie) : Type 0 where
  pub named : is_empty c.name ≡ false
  pub no_space : starts_with_space c.name ≡ false
  pub no_equals : contains b'=' c.name ≡ false
  pub no_semicolon : contains b';' c.name ≡ false
  pub value_no_semicolon : contains b';' c.value ≡ false
  pub no_attribute : is_attribute (render c) (length c.name) ≡ false

abbrev pub has_name : CookieJar → CString → Bool
has_name [] n = false
has_name (c ∷ jar) n = streq c.name n || has_name jar n

-- No cookie of the second list has the name of one before it.
abbrev pub FreshAfter : CookieJar → CookieJar → Type 0
FreshAfter done [] = Unit
FreshAfter done (c ∷ jar) = (has_name done c.name ≡ false) × FreshAfter (done ++ c ∷ []) jar

pub record IsJar (jar : CookieJar) : Type 0 where
  pub good : All IsGood jar
  pub fresh : FreshAfter [] jar

pub find_name-none :
    (jar : CookieJar) (n : CString) → (find_name jar n ≡ none) ↔ (has_name jar n ≡ false)
unfolding find_name
find_name-none [] n = (λ _. refl, λ _. refl)
find_name-none (c ∷ jar) n =
    (λ h. ground (arith, h, find_name-none jar n), λ h. ground (arith, h, find_name-none jar n))

has_name-append :
    (jar more : CookieJar) (n : CString)
    → has_name (jar ++ more) n ≡ (has_name jar n || has_name more n)
has_name-append [] more n = refl
has_name-append (c ∷ jar) more n = ground (arith, has_name-append jar more n)

FreshAfter-append :
    (done jar : CookieJar) (c : Cookie)
    → FreshAfter done jar
    → has_name (done ++ jar) c.name ≡ false
    → FreshAfter done (jar ++ c ∷ [])
FreshAfter-append done [] c h e = (rw (append-nil done) at e, tt)
FreshAfter-append done (x ∷ jar) c h e =
    (h.0, FreshAfter-append (done ++ x ∷ []) jar c h.1 (rw (append_assoc done (x ∷ []) jar) e))

-- Only the names before count.
FreshAfter-names :
    (done done' jar : CookieJar)
    → ((n : CString) → has_name done n ≡ has_name done' n)
    → FreshAfter done jar
    → FreshAfter done' jar
FreshAfter-names done done' [] same h = tt
FreshAfter-names done done' (c ∷ jar) same h = (
  ground (arith, same c.name, h.0),
  FreshAfter-names (done ++ c ∷ []) (done' ++ c ∷ []) jar
      (λ n.
        ground (arith, same n, has_name-append done (c ∷ []) n, has_name-append done' (c ∷ []) n))
      h.1,
)

FreshAfter-update :
    (done jar : CookieJar) (i : ℕ) (v : CString)
    → FreshAfter done jar
    → FreshAfter done (update_cookie jar i v)
unfolding update_cookie
FreshAfter-update done [] i v h = tt
FreshAfter-update done (c ∷ jar) zero v h = (
  h.0,
  FreshAfter-names (done ++ c ∷ []) (done ++ record c { value = v } ∷ []) jar
      (λ n. ground (
        arith,
        has_name-append done (c ∷ []) n,
        has_name-append done (record c { value = v } ∷ []) n,
      ))
      h.1,
)
FreshAfter-update done (c ∷ jar) (suc i) v h = (h.0, FreshAfter-update (done ++ c ∷ []) jar i v h.1)

All-append : (jar : CookieJar) (c : Cookie) → All IsGood jar → IsGood c → All IsGood (jar ++ c ∷ [])
All-append [] c h g = (g, tt)
All-append (x ∷ jar) c h g = (h.0, All-append jar c h.1 g)

-- The comparison with the attributes reads no byte behind the name.
strncaseeq_prefix :
    (a s t b : CString) → strncaseeq (a ++ s) b (length a) ≡ strncaseeq (a ++ t) b (length a)
unfolding strncaseeq
strncaseeq_prefix [] s t b = refl
strncaseeq_prefix (x ∷ a) s t [] = refl
strncaseeq_prefix (x ∷ a) s t (y ∷ b) = ground (arith, strncaseeq_prefix a s t b)

pub is_attribute_prefix :
    (n s t : CString) → is_attribute (n ++ s) (length n) ≡ is_attribute (n ++ t) (length n)
unfolding is_attribute
is_attribute_prefix n s t = ground (
  arith,
  strncaseeq_prefix n s t (codes "Path"),
  strncaseeq_prefix n s t (codes "Max-Age"),
  strncaseeq_prefix n s t (codes "Expires"),
  strncaseeq_prefix n s t (codes "SameSite"),
  strncaseeq_prefix n s t (codes "Domain"),
)

IsGood-value :
    (c : Cookie) (v : CString)
    → IsGood c
    → contains b';' v ≡ false
    → IsGood (record c { value = v })
IsGood-value c v g h = record {
  named = g.named;
  no_space = g.no_space;
  no_equals = g.no_equals;
  no_semicolon = g.no_semicolon;
  value_no_semicolon = h;
  no_attribute = is_attribute_prefix c.name (b'=' ∷ v) (b'=' ∷ c.value) ∙ g.no_attribute;
}

All-update :
    (jar : CookieJar) (i : ℕ) (v : CString)
    → contains b';' v ≡ false
    → All IsGood jar
    → All IsGood (update_cookie jar i v)
unfolding update_cookie
All-update [] i v h g = tt
All-update (c ∷ jar) zero v h g = (IsGood-value c v g.0 h, g.1)
All-update (c ∷ jar) (suc i) v h g = (g.0, All-update jar i v h g.1)

store_cookie-IsJar :
    (jar : CookieJar) (n v : CString)
    → IsGood (record { name = n; value = v })
    → IsJar jar
    → IsJar (store_cookie jar n v)
unfolding store_cookie search_cookie add_cookie
store_cookie-IsJar jar n v g j = elim (Option-cases (find_name jar n)) [
  | inl e ↦
      rw (g.named, e, store_cookie, g.named)
        (record {
          good = All-append jar _ j.good g;
          fresh = FreshAfter-append [] jar _ j.fresh ((find_name-none jar n).0 e);
        })
  | inr (i, e) ↦
      rw (g.named, e, store_cookie)
        (record {
          good = All-update jar i v g.value_no_semicolon j.good;
          fresh = FreshAfter-update [] jar i v j.fresh;
        })
]

build_token-IsJar :
    (jar : CookieJar) (tok : CString)
    → contains b';' tok ≡ false
    → IsJar jar
    → IsJar (build_token jar tok)
unfolding build_token
build_token-IsJar jar tok h j = elim (Option-cases (split_at_equals tok)) [
  | inl e ↦ rw (e, build_token) j
  | inr ((a, v), e) ↦
      let n = skip_spaces a in
      let parts = split_at_equals_parts b';' tok a v e h in
      rw (e, build_token)
        (elim (Bool-cases (ltb 0 (length n) && not (is_attribute (n ++ b'=' ∷ v) (length n)))) [
          | inl t ↦ rw t (
              store_cookie-IsJar jar n v
                (record {
                  named = ground (arith, t);
                  no_space = starts_with_space-skip_spaces a;
                  no_equals = contains-skip_spaces b'=' a parts.0;
                  no_semicolon = contains-skip_spaces b';' a parts.1;
                  value_no_semicolon = parts.2;
                  no_attribute = ground (arith, t);
                })
                j)
          | inr t ↦ rw t j
        ])
]

pub build_tokens-IsJar :
    (jar : CookieJar) (toks : List CString)
    → All (λ s. contains b';' s ≡ false) toks
    → IsJar jar
    → IsJar (build_tokens jar toks)
unfolding build_tokens
build_tokens-IsJar jar [] h j = j
build_tokens-IsJar jar (tok ∷ toks) h j =
    build_tokens-IsJar (build_token jar tok) toks h.1 (build_token-IsJar jar tok h.0 j)

abbrev pub IsJarOpt : Option CookieJar → Type 0
IsJarOpt none = Unit
IsJarOpt (some jar) = IsJar jar

-- Whatever header a server sends, the jar keeps distinct, non-empty names that hold no ";", no "="
-- and no space in front and are no attribute's, and values that hold no ";".
pub cookiejar_build-IsJar :
    (jar : Option CookieJar) (header : Option CString)
    → IsJarOpt jar
    → IsJarOpt (cookiejar_build jar header).0
unfolding cookiejar_build
cookiejar_build-IsJar none header j = tt
cookiejar_build-IsJar (some jar) none j = j
cookiejar_build-IsJar (some jar) (some []) j = j
cookiejar_build-IsJar (some jar) (some (c ∷ header)) j =
    build_tokens-IsJar jar (strtok (c ∷ header)) (strtok-NoSemicolon (c ∷ header)) j
