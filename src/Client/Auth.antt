-- ===== src/Client/Auth.antt =====
-- The Authorization header of dmmain/cwmpd_client.c.
use tr069_manager.Base.{
  ℕ, ◌+◌, ◌-◌, ◌*◌, ◌/◌, ◌<◌, ◌≡◌, refl, Bool, true, false, Option, none, some, ◌∷◌, ◌++◌, arith,
  if◌then◌else◌, is_some, CString, codes, strstr, length, length-append,
}
use tr069_manager.Client.Defs.{
  AuthType, auth_basic, auth_digest, auth_unsupported, auth_none, Client, Env,
}

-- hdr_size in cwmp_client_auth_basic
abbrev pub basic_header_size : ℕ → ℕ
basic_header_size len = 6 + 4 * (len + 2) / 3 + 2

-- cwmp_client_auth_basic
unfoldable pub basic_header : Env → CString → CString → Option CString
basic_header e username password =
    let len = length username + length password + 1 in
    elim (e.b64_encode (username ++ b':' ∷ password) (basic_header_size len - 6)) [
      | none ↦ none
      | some encoded ↦ some (codes "Basic " ++ encoded)
    ]

unfoldable pub make_header :
    Env → AuthType → CString → Option CString → CString → CString → Option CString
make_header e auth_basic challenge path username password = basic_header e username password
make_header e auth_digest challenge path username password =
    e.digest_response challenge path username password
make_header e auth_unsupported challenge path username password = none
make_header e auth_none challenge path username password = none

-- cwmp_client_gen_auth_hdr; true for cwmp_status_ok.
unfoldable pub gen_auth_hdr : Env → AuthType → CString → Client → Client × Bool
gen_auth_hdr e kind challenge c = elim e.username [
  | none ↦ (c, false)
  | some username ↦ elim e.password [
    | none ↦ (c, false)
    | some password ↦
        let header = make_header e kind challenge c.server_path username password in
        (record c { auth_hdr = header }, is_some header)
  ]
]

unfoldable pub challenge_type : CString → AuthType
challenge_type challenge =
    if strstr challenge (codes "Basic")
    then auth_basic
    else if strstr challenge (codes "Digest")
    then auth_digest
    else auth_unsupported

-- cwmp_client_get_authentication_hdr, for a WWW-Authenticate header of less than 512 bytes.
unfoldable pub get_authentication_hdr : Env → Client → Client
get_authentication_hdr e c = elim e.www_authenticate [
  | none ↦ record c { auth_type = auth_unsupported }
  | some challenge ↦
      let kind = challenge_type challenge in
      (gen_auth_hdr e kind challenge (record c { auth_type = kind })).0
]

-- What lws_b64_encode_string promises: a text of n bytes is encoded where the buffer has room for
-- four bytes for every three of it, rounded up, a NUL and one byte more.
abbrev pub EncodesInRoom : (CString → ℕ → Option CString) → (CString → CString) → Type 0
EncodesInRoom encode b64 =
    (text : CString) (size : ℕ)
    → 4 * ((length text + 2) / 3) + 1 < size
    → encode text size ≡ some (b64 text)

-- The buffer of cwmp_client_auth_basic has room for the encoded credentials whatever their length,
-- so that, where the username and the password can be read, the Authorization header of Basic
-- authentication is always made, and it is "Basic " with the encoding of "username:password".
pub gen_auth_hdr-basic :
    (e : Env) (b64 : CString → CString) (c : Client) (challenge username password : CString)
    → EncodesInRoom e.b64_encode b64
    → e.username ≡ some username
    → e.password ≡ some password
    → gen_auth_hdr e auth_basic challenge c
      ≡ (record c { auth_hdr = some (codes "Basic " ++ b64 (username ++ b':' ∷ password)) }, true)
unfolding gen_auth_hdr make_header basic_header
gen_auth_hdr-basic e b64 c challenge username password room u p =
    let text = username ++ b':' ∷ password in
    let size = basic_header_size (length username + length password + 1) - 6 in
    let n = length-append username (b':' ∷ password) in
    rw (u, p, room text size (omega (arith, n))) refl
