-- ===== src/Cookie/Examples.antt =====
-- Runs of the cookie jar, and its theorems at concrete headers.
use tr069_manager.Base.{◌≡◌, refl, true, some, [], ◌∷◌, ◌++◌, codes, streq, strncaseeq}
use tr069_manager.Cookie.{
  Cookie, CookieJar, find_name, search_cookie, add_cookie, is_attribute, store_cookie, build_token,
  build_tokens, cookiejar_build, render, append_cookies, cookiejar_to_string,
}
use tr069_manager.Cookie.Scan.{strtok, split_at_equals, skip_spaces}
use tr069_manager.Cookie.Invariant.{IsGood, IsJar, IsJarOpt, cookiejar_build-IsJar}
use tr069_manager.Cookie.RoundTrip.{tail_text, build-to_string}
use tr069_manager.Cookie.Lookup.{lookup, last_value, lookup-build}
use tr069_manager.Cookie.Reserved.{path, build_prefix}

abbrev session : Cookie
session = record { name = codes "JSESSIONID"; value = codes "a=1" }

abbrev lang : Cookie
lang = record { name = codes "lang"; value = [] }

unfolding_all :
    cookiejar_build (some []) (some (codes "JSESSIONID=a=1; Path=/; lang=;Secure"))
    ≡ (some (session ∷ lang ∷ []), true)
unfolding cookiejar_build build_tokens build_token store_cookie search_cookie find_name add_cookie
    is_attribute strtok split_at_equals skip_spaces strncaseeq streq
unfolding_all = refl

to_string_test :
    cookiejar_to_string (some (session ∷ lang ∷ [])) ≡ some (codes "JSESSIONID=a=1;lang=")
unfolding cookiejar_to_string append_cookies
to_string_test = refl

empty-IsJar : IsJarOpt (some [])
empty-IsJar = record { good = tt; fresh = tt }

session-IsGood : IsGood session
unfolding is_attribute strncaseeq
session-IsGood = record {
  named = refl;
  no_space = refl;
  no_equals = refl;
  no_semicolon = refl;
  value_no_semicolon = refl;
  no_attribute = refl;
}

lang-IsGood : IsGood lang
unfolding is_attribute strncaseeq
lang-IsGood = record {
  named = refl;
  no_space = refl;
  no_equals = refl;
  no_semicolon = refl;
  value_no_semicolon = refl;
  no_attribute = refl;
}

two-IsJar : IsJar (session ∷ lang ∷ [])
unfolding streq
two-IsJar = record { good = (session-IsGood, (lang-IsGood, tt)); fresh = (refl, (refl, tt)) }

cookiejar_build-IsJar_example : IsJarOpt (cookiejar_build (some []) (some (codes "a=1; b=2;a=3"))).0
cookiejar_build-IsJar_example =
    cookiejar_build-IsJar (some []) (some (codes "a=1; b=2;a=3")) empty-IsJar

build-to_string_example :
    cookiejar_build (some []) (cookiejar_to_string (some (session ∷ lang ∷ [])))
    ≡ (some (session ∷ lang ∷ []), true)
build-to_string_example = build-to_string session (lang ∷ []) two-IsJar

lookup-build_example :
    let r = cookiejar_build (some (lang ∷ [])) (some (render session ++ tail_text (lang ∷ []))) in
    (after : CookieJar) × (r ≡ (some after, true))
    × (lookup after (codes "lang")
        ≡ last_value (codes "lang") (lookup (lang ∷ []) (codes "lang")) (session ∷ lang ∷ []))
lookup-build_example =
    lookup-build (lang ∷ []) session (lang ∷ []) (codes "lang") (session-IsGood, (lang-IsGood, tt))

build_prefix_test :
    cookiejar_build (some (session ∷ [])) (some (codes "P" ++ b'=' ∷ codes "1"))
    ≡ (some (session ∷ []), true)
build_prefix_test = build_prefix (session ∷ []) path (codes "P") (codes "ath") (codes "1") refl refl
