-- ===== src/Cookie/RoundTrip.antt =====
-- The text of a jar, read back.
use mathlib.Core.List.{append-nil, append_assoc}
use tr069_manager.Base.{
  ℕ, ◌≡◌, refl, sym, ap, ◌∙◌, true, false, ◌||◌, some, [], ◌∷◌, ◌++◌, map, arith, ltb, CString, All,
  length, is_empty,
}
use tr069_manager.Cookie.{
  Cookie, CookieJar, search_cookie, add_cookie, store_cookie, build_token, build_tokens,
  cookiejar_build, render, append_cookies, cookiejar_to_string,
}
use tr069_manager.Cookie.Scan.{
  strtok, contains, strtok-append, strtok_last, split_at_equals-append, skip_spaces_none,
}
use tr069_manager.Cookie.Invariant.{IsGood, has_name, FreshAfter, IsJar, find_name-none}

pub contains-append : (x : ℕ) (a b : CString) → contains x (a ++ b) ≡ (contains x a || contains x b)
contains-append x [] b = refl
contains-append x (c ∷ a) b = ground (arith, contains-append x a b)

render_no_semicolon : (c : Cookie) → IsGood c → contains b';' (render c) ≡ false
render_no_semicolon c g =
    ground
      (arith, contains-append b';' c.name (b'=' ∷ c.value), g.no_semicolon, g.value_no_semicolon)

-- The cookies after the first.
pub tail_text : CookieJar → CString
tail_text [] = []
tail_text (c ∷ jar) = b';' ∷ (render c ++ tail_text jar)

abbrev pub IsFilled : CString → Type 0
IsFilled s = is_empty s ≡ false

IsFilled-append : (a b : CString) → IsFilled a → IsFilled (a ++ b)
IsFilled-append [] b h = cc
IsFilled-append (x ∷ a) b h = refl

append_cookies-tail :
    (acc : CString) (jar : CookieJar) → IsFilled acc → append_cookies acc jar ≡ acc ++ tail_text jar
unfolding append_cookies tail_text
append_cookies-tail acc [] h = sym (append-nil acc)
append_cookies-tail acc (c ∷ jar) h = rw h (
    append_cookies-tail (acc ++ b';' ∷ render c) jar (IsFilled-append acc _ h)
    ∙ append_assoc acc (b';' ∷ render c) (tail_text jar))

pub render-IsFilled : (c : Cookie) → IsFilled (render c)
render-IsFilled c = go c.name
  where
    go : (n : CString) → IsFilled (n ++ b'=' ∷ c.value)
    go [] = refl
    go (x ∷ n) = refl

pub append_cookies_lem :
    (c : Cookie) (jar : CookieJar) → append_cookies [] (c ∷ jar) ≡ render c ++ tail_text jar
unfolding append_cookies
append_cookies_lem c jar = append_cookies-tail (render c) jar (render-IsFilled c)

strtok_text :
    (s t : CString) → IsFilled s → contains b';' s ≡ false → strtok (s ++ b';' ∷ t) ≡ s ∷ strtok t
strtok_text [] t f h = cc
strtok_text (x ∷ s) t f h = strtok-append x s t h

strtok_alone : (s : CString) → IsFilled s → contains b';' s ≡ false → strtok (s ++ []) ≡ s ∷ []
strtok_alone [] f h = cc
strtok_alone (x ∷ s) f h = rw (append-nil s) (strtok_last x s h)

pub strtok-render :
    (c : Cookie) (jar : CookieJar)
    → All IsGood (c ∷ jar)
    → strtok (render c ++ tail_text jar) ≡ map render (c ∷ jar)
unfolding tail_text
strtok-render c [] g = strtok_alone (render c) (render-IsFilled c) (render_no_semicolon c g.0)
strtok-render c (d ∷ jar) g =
    strtok_text (render c) _ (render-IsFilled c) (render_no_semicolon c g.0)
    ∙ ap (◌∷◌ (render c)) (strtok-render d jar g.1)

named_length : (s : CString) → IsFilled s → ltb 0 (length s) ≡ true
named_length [] h = cc
named_length (x ∷ s) h = ground arith

-- A good cookie is stored as it stands.
pub build_token-render :
    (jar : CookieJar) (c : Cookie)
    → IsGood c
    → build_token jar (render c) ≡ store_cookie jar c.name c.value
unfolding build_token
build_token-render jar c g =
    rw (split_at_equals-append c.name c.value g.no_equals, build_token)
      (rw (skip_spaces_none c.name g.no_space) (rw (named_length c.name g.named, g.no_attribute)))

store_cookie_fresh :
    (jar : CookieJar) (c : Cookie)
    → IsGood c
    → has_name jar c.name ≡ false
    → store_cookie jar c.name c.value ≡ jar ++ c ∷ []
unfolding store_cookie search_cookie add_cookie
store_cookie_fresh jar c g h = rw (g.named, (find_name-none jar c.name).1 h, store_cookie, g.named)

build_tokens-render :
    (done jar : CookieJar)
    → All IsGood jar
    → FreshAfter done jar
    → build_tokens done (map render jar) ≡ done ++ jar
unfolding build_tokens
build_tokens-render done [] g f = sym (append-nil done)
build_tokens-render done (c ∷ jar) g f =
    ap (λ d. build_tokens d (map render jar))
      (build_token-render done c g.0 ∙ store_cookie_fresh done c g.0 f.0)
    ∙ (build_tokens-render (done ++ c ∷ []) jar g.1 f.1 ∙ append_assoc done (c ∷ []) jar)

pub text-IsFilled : (c : Cookie) (jar : CookieJar) → IsFilled (render c ++ tail_text jar)
text-IsFilled c jar = IsFilled-append (render c) _ (render-IsFilled c)

pub build-filled :
    (jar : CookieJar) (s : CString)
    → IsFilled s
    → cookiejar_build (some jar) (some s) ≡ (some (build_tokens jar (strtok s)), true)
unfolding cookiejar_build
build-filled jar s h = rw h

-- The Cookie header that is sent for a jar of the invariant reads back as that jar.
pub build-to_string :
    (c : Cookie) (jar : CookieJar)
    → IsJar (c ∷ jar)
    → cookiejar_build (some []) (cookiejar_to_string (some (c ∷ jar))) ≡ (some (c ∷ jar), true)
unfolding cookiejar_to_string
build-to_string c jar j = rw (append_cookies_lem c jar) (
    build-filled [] (render c ++ tail_text jar) (text-IsFilled c jar)
    ∙ ap (λ toks. (some (build_tokens [] toks), true)) (strtok-render c jar j.good)
    ∙ ap (λ k. (some k, true)) (build_tokens-render [] (c ∷ jar) j.good j.fresh))
