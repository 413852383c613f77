-- ===== src/Client/Closing.antt =====
-- How a connection of dmmain/cwmpd_client.c ends for each status of the response.
use mathlib.Core.Option
use tr069_manager.Base.{
  ◌≡◌, ◌≢◌, ◌↔◌, Bool, true, false, not, ◌&&◌, some, [], ◌∷◌, arith, if◌then◌else◌, is_some,
  CString,
}
use tr069_manager.Client.Defs.{Client, close_session, auth_retry_timer, Env}
use tr069_manager.Client.Auth.{make_header, gen_auth_hdr, challenge_type, get_authentication_hdr}
use tr069_manager.Client.Callbacks.{
  handle_cookies, connection_established, is_unsupported, connection_closed,
}

-- The client once the headers of a response have come.
abbrev pub answered : Env → Client → Client
answered e c = (connection_established e c).client

-- When the connection of a response with a status other than 401 is closed, the session is closed
-- as a success exactly for status 204, goes on with nothing done exactly for 200, and is closed as
-- failed exactly for all others.
pub closed_by_status :
    (e : Env) (c : Client)
    → e.response_code ≢ 401
    → ((connection_closed (answered e c) ≡ close_session true ∷ []) ↔ (e.response_code ≡ 204))
      × (((connection_closed (answered e c) ≡ []) ↔ (e.response_code ≡ 200))
          × ((connection_closed (answered e c) ≡ close_session false ∷ [])
              ↔ ((e.response_code ≢ 204) × (e.response_code ≢ 200))))
unfolding connection_closed connection_established get_authentication_hdr gen_auth_hdr
    handle_cookies
closed_by_status e c other = (ground (arith, other), (ground (arith, other), ground (arith, other)))

-- Whether an Authorization header stands after a challenge: a new one where the credentials can be
-- read, else the one from before.
abbrev pub has_header : Env → Client → CString → Bool
has_header e c challenge =
    if is_some e.username && is_some e.password
    then is_some (
        make_header e (challenge_type challenge) challenge c.server_path
          (Option.get_or e.username []) (Option.get_or e.password []))
    else is_some c.auth_hdr

-- After a 401 with a challenge the message is sent again exactly where the challenge names Basic or
-- Digest and there is an Authorization header, be it one from before the challenge when the
-- credentials cannot be read; otherwise the session is closed as failed.
pub retry_after_401 :
    (e : Env) (c : Client) (challenge : CString)
    → e.response_code ≡ 401
    → e.www_authenticate ≡ some challenge
    → connection_closed (answered e c) ≡ (
        if not (is_unsupported (challenge_type challenge)) && has_header e c challenge
        then auth_retry_timer ∷ []
        else close_session false ∷ [])
unfolding connection_closed connection_established get_authentication_hdr gen_auth_hdr
retry_after_401 e c challenge status header = ground (arith, status, header)
