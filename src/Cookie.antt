-- ===== src/Cookie.antt =====
-- src/dmmain/cwmpd_cookie.c: the jar of session cookies. A jar is the list in the order of
-- insertion; the pointer to a cookie that a search returns is the cookie's position in the list.
pub mod Scan
pub mod Invariant
pub mod Lookup
pub mod RoundTrip
pub mod Reserved
mod Examples
use mathlib.Core.Option
use tr069_manager.Base.{
  ℕ, zero, suc, Bool, true, false, not, ◌&&◌, ◌||◌, Option, none, some, List, [], ◌∷◌, ◌++◌, ltb,
  if◌then◌else◌, CString, codes, streq, strncaseeq, length, is_empty,
}
use Scan.{strtok, split_at_equals, skip_spaces}

pub record Cookie : Type 0 where
  pub name : CString
  pub value : CString

abbrev pub CookieJar : Type 0
CookieJar = List Cookie

-- The loop of `search_cookie`.
unfoldable pub find_name : CookieJar → CString → Option ℕ
find_name [] n = none
find_name (c ∷ jar) n =
    let rest = find_name jar n in if streq c.name n then some 0 else Option.map suc rest

-- An empty name finds nothing.
pub search_cookie : CookieJar → CString → Option ℕ
search_cookie jar n = if is_empty n then none else find_name jar n

pub add_cookie : CookieJar → CString → CString → CookieJar
add_cookie jar n v = if is_empty n then jar else jar ++ record { name = n; value = v } ∷ []

pub update_cookie : CookieJar → ℕ → CString → CookieJar
update_cookie [] i v = []
update_cookie (c ∷ jar) zero v = record c { value = v } ∷ jar
update_cookie (c ∷ jar) (suc i) v = c ∷ update_cookie jar i v

-- The attributes of a cookie, which the jar does not keep; `len` bytes are compared.
pub is_attribute : CString → ℕ → Bool
is_attribute start len =
    strncaseeq start (codes "Path") len
    || (strncaseeq start (codes "Max-Age") len
        || (strncaseeq start (codes "Expires") len
            || (strncaseeq start (codes "SameSite") len || strncaseeq start (codes "Domain") len)))

pub store_cookie : CookieJar → CString → CString → CookieJar
store_cookie jar n v = elim (search_cookie jar n) [
  | some i ↦ update_cookie jar i v
  | none ↦ add_cookie jar n v
]

-- One round of the loop. `end` stays at the "=", which is no space, so `len` is the length of the
-- name with the spaces before it skipped; with no "=" it is 0.
pub build_token : CookieJar → CString → CookieJar
build_token jar tok = elim (split_at_equals tok) [
  | none ↦ jar
  | some (before, value) ↦
      let name = skip_spaces before in
      if ltb 0 (length name) && not (is_attribute (name ++ b'=' ∷ value) (length name))
      then store_cookie jar name value
      else jar
]

pub build_tokens : CookieJar → List CString → CookieJar
build_tokens jar [] = jar
build_tokens jar (tok ∷ toks) = build_tokens (build_token jar tok) toks

-- `none` is NULL. The second result is true for the code's 0 and false for its -1.
pub cookiejar_build : Option CookieJar → Option CString → Option CookieJar × Bool
cookiejar_build none header = (none, false)
cookiejar_build (some jar) none = (some jar, false)
cookiejar_build (some jar) (some header) =
    if is_empty header then (some jar, false) else (some (build_tokens jar (strtok header)), true)

-- name=value
abbrev pub render : Cookie → CString
render c = c.name ++ b'=' ∷ c.value

unfoldable pub append_cookies : CString → CookieJar → CString
append_cookies acc [] = acc
append_cookies acc (c ∷ jar) =
    append_cookies (acc ++ (if is_empty acc then render c else b';' ∷ render c)) jar

unfoldable pub cookiejar_to_string : Option CookieJar → Option CString
cookiejar_to_string none = none
cookiejar_to_string (some jar) = if is_empty jar then none else some (append_cookies [] jar)

pub cookiejar_clean : Option CookieJar → Option CookieJar
cookiejar_clean jar = none
