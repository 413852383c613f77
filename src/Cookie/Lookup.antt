-- ===== src/Cookie/Lookup.antt =====
-- The jar as a dictionary: what a header does to the value that a name stands for.
use tr069_manager.Base.{
  ℕ, zero, suc, ◌≡◌, refl, ap, ◌∙◌, inl, inr, true, false, Option, none, some, [], ◌∷◌, ◌++◌, map,
  arith, if◌then◌else◌, Bool-cases, Option-cases, CString, streq, streq_refl, streq→eq, All,
}
use tr069_manager.Cookie.{
  Cookie, CookieJar, find_name, search_cookie, add_cookie, update_cookie, store_cookie,
  build_tokens, cookiejar_build, render,
}
use tr069_manager.Cookie.Invariant.{IsGood, has_name, find_name-none}
use tr069_manager.Cookie.RoundTrip.{
  tail_text, strtok-render, build_token-render, text-IsFilled, build-filled,
}

abbrev pub lookup : CookieJar → CString → Option CString
lookup [] n = none
lookup (c ∷ jar) n = if streq c.name n then some c.value else lookup jar n

-- The value of a name's last cookie in a list, or else `old`.
abbrev pub last_value : CString → Option CString → CookieJar → Option CString
last_value n old [] = old
last_value n old (c ∷ cs) = last_value n (if streq c.name n then some c.value else old) cs

lookup-append :
    (jar : CookieJar) (c : Cookie) (n : CString)
    → has_name jar c.name ≡ false
    → lookup (jar ++ c ∷ []) n ≡ (if streq c.name n then some c.value else lookup jar n)
lookup-append [] c n h = refl
lookup-append (d ∷ jar) c n h = elim (Bool-cases (streq c.name n)) [
  | inl e ↦
      rw (← streq→eq c.name n e) (ground (arith, streq_refl c.name, lookup-append jar c c.name, h))
  | inr e ↦ ground (arith, lookup-append jar c n, h, e)
]

lookup-update :
    (jar : CookieJar) (i : ℕ) (m v n : CString)
    → find_name jar m ≡ some i
    → lookup (update_cookie jar i v) n ≡ (if streq m n then some v else lookup jar n)
unfolding find_name update_cookie
lookup-update [] i m v n h = cc
lookup-update (d ∷ jar) zero m v n h = elim (Bool-cases (streq d.name m)) [
  | inl e ↦ rw (streq→eq d.name m e) (ground arith)
  | inr e ↦ ground (arith, h, e)
]
lookup-update (d ∷ jar) (suc i) m v n h =
    ground (arith, h, lookup-update jar i m v n, streq→eq d.name n, streq→eq m n, streq_refl n)

lookup-store :
    (jar : CookieJar) (c : Cookie) (n : CString)
    → IsGood c
    → lookup (store_cookie jar c.name c.value) n
      ≡ (if streq c.name n then some c.value else lookup jar n)
unfolding store_cookie search_cookie add_cookie
lookup-store jar c n g = elim (Option-cases (find_name jar c.name)) [
  | inl e ↦
      rw (g.named, e, store_cookie, g.named)
        (lookup-append jar c n ((find_name-none jar c.name).0 e))
  | inr (i, e) ↦ rw (g.named, e, store_cookie) (lookup-update jar i c.name c.value n e)
]

lookup-build_tokens :
    (jar cs : CookieJar) (n : CString)
    → All IsGood cs
    → lookup (build_tokens jar (map render cs)) n ≡ last_value n (lookup jar n) cs
unfolding build_tokens
lookup-build_tokens jar [] n g = refl
lookup-build_tokens jar (c ∷ cs) n g =
    ap (λ j. lookup (build_tokens j (map render cs)) n) (build_token-render jar c g.0)
    ∙ lookup-build_tokens (store_cookie jar c.name c.value) cs n g.1
    ∙ ap (λ old. last_value n old cs) (lookup-store jar c n g.0)

-- A header of one or more cookies, names repeated or not, succeeds and gives each name the value of
-- its last cookie there, and leaves every other name as it was.
pub lookup-build :
    (jar : CookieJar) (c : Cookie) (cs : CookieJar) (n : CString)
    → All IsGood (c ∷ cs)
    → let r = cookiejar_build (some jar) (some (render c ++ tail_text cs)) in
      (after : CookieJar) × (r ≡ (some after, true))
      × (lookup after n ≡ last_value n (lookup jar n) (c ∷ cs))
lookup-build jar c cs n g = (
  build_tokens jar (map render (c ∷ cs)),
  build-filled jar _ (text-IsFilled c cs)
      ∙ ap (λ toks. (some (build_tokens jar toks), true)) (strtok-render c cs g),
  lookup-build_tokens jar (c ∷ cs) n g,
)
