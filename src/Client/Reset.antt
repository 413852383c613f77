-- ===== src/Client/Reset.antt =====
-- What is left of a session once it is closed (DM_CloseHttpSession in dmmain/cwmpd_client.c).
use tr069_manager.Base.{
  ◌≡◌, refl, false, [], ◌∷◌, arith, if◌then◌else◌, CString, codes, streq, length, is_empty,
}
use tr069_manager.Cookie.{cookiejar_to_string}
use tr069_manager.Client.Defs.{Client, user_agent, content_length, content_type, soap_action, Env}
use tr069_manager.Client.Auth.{gen_auth_hdr}
use tr069_manager.Client.Address.{update_qos_info, get_acsip, parse_url}
use tr069_manager.Client.Callbacks.{request_headers}
use tr069_manager.Client.Session.{
  https_session_init, prepare_session, close_http_session, open_session, start_session,
}

-- Two clients with the same session data.
abbrev SameSession : Client → Client → Type 0
SameSession c c' =
    (c.jar ≡ c'.jar) × ((c.auth_hdr ≡ c'.auth_hdr) × (c.server_scheme ≡ c'.server_scheme))

parse_url-session :
    (e : Env) (c : Client)
    → ((parse_url e c).0.jar ≡ c.jar) × ((parse_url e c).0.auth_hdr ≡ c.auth_hdr)
unfolding parse_url update_qos_info
parse_url-session e c = (ground arith, ground arith)

get_acsip-SameSession : (e : Env) (c : Client) → SameSession (get_acsip e c).0 c
unfolding get_acsip update_qos_info
get_acsip-SameSession e c = (ground arith, (ground arith, ground arith))

open_session-jar :
    (e : Env) (c : Client)
    → ((open_session e c).0.jar ≡ c.jar) × ((open_session e c).0.server_scheme ≡ c.server_scheme)
unfolding open_session prepare_session https_session_init gen_auth_hdr
open_session-jar e c = (ground arith, ground arith)

open_session-auth_hdr :
    (e : Env) (c : Client)
    → streq c.server_scheme (codes "https") ≡ false
    → (open_session e c).0.auth_hdr ≡ c.auth_hdr
unfolding open_session prepare_session
open_session-auth_hdr e c plain = ground (arith, plain)

start_jar : (e : Env) (c : Client) → (start_session e c).0.jar ≡ c.jar
unfolding start_session
start_jar e c =
    let c' = (parse_url e c).0 in
    ground (
      arith,
      parse_url-session e c,
      get_acsip-SameSession e c',
      open_session-jar e (get_acsip e c').0,
    )

start_auth_hdr :
    (e : Env) (c : Client)
    → streq (start_session e c).0.server_scheme (codes "https") ≡ false
    → (start_session e c).0.auth_hdr ≡ c.auth_hdr
unfolding start_session
start_auth_hdr e c plain =
    let c' = (parse_url e c).0 in
    let c'' = (get_acsip e c').0 in
    ground (
      arith,
      plain,
      parse_url-session e c,
      get_acsip-SameSession e c',
      open_session-jar e c'',
      open_session-auth_hdr e c'',
    )

-- After a session is closed, the next one that starts over plain HTTP carries nothing of it: the
-- first request of any message has neither cookies nor an Authorization header.
pub fresh_request_headers :
    (e : Env) (c : Client) (message : CString)
    → let c' = (start_session e (close_http_session c)).0 in
      streq c'.server_scheme (codes "https") ≡ false
      → request_headers c' message
        ≡ user_agent
          ∷ content_length (length message)
          ∷ (if is_empty message then [] else content_type ∷ soap_action ∷ [])
unfolding request_headers close_http_session cookiejar_to_string
fresh_request_headers e c message plain =
    let closed = close_http_session c in rw (start_jar e closed, start_auth_hdr e closed plain) refl
