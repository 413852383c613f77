-- ===== src/Server/Safety.antt =====
-- When a connection request starts a session, and what it is answered.
use tr069_manager.Base.{
  ℕ, ◌<◌, ◌≡◌, refl, sym, ap, inl, inr, Bool, true, false, not, ◌&&◌, ◌||◌, Option, none, some,
  List, [], ◌∷◌, arith, ltb, ◌==◌, if◌then◌else◌, Option-cases, CString, streq→eq, length, drop,
  filterb,
}
use tr069_manager.Requests.{Timestamps}
use tr069_manager.Server.{
  Piece, status_line, end_of_headers, Action, return_http_status, write_response,
  request_connection, Env, validate_uri, check_server_availability, reply_http_unauthorized,
  reply_http_no_content, auth_message, validate_authentication, uri_text, handle_request,
}

abbrev pub is_request_connection : Action → Bool
is_request_connection request_connection = true
is_request_connection _ = false

-- The engine was asked for a session.
abbrev pub asks_session : List Action → Bool
asks_session [] = false
asks_session (a ∷ as') = is_request_connection a || asks_session as'

abbrev pub ends : List Piece → Bool
ends [] = false
ends (end_of_headers ∷ []) = true
ends (p ∷ ps) = ends ps

-- A status line, then the other headers to their end.
abbrev pub is_complete : List Piece → Bool
is_complete (status_line code ∷ ps) = ends ps
is_complete _ = false

abbrev pub is_response : Action → Bool
is_response (return_http_status c) = true
is_response (write_response p) = is_complete p
is_response _ = false

abbrev pub responses : List Action → ℕ
responses l = length (filterb is_response l)

-- The request passed the digest check with the data model's credentials, over a message that names
-- its own URI.
pub record IsAuthentic (e : Env) (uri : CString) : Type 0 where
  pub user : CString
  pub passwd : CString
  pub user_is : e.username ≡ some user
  pub passwd_is : e.password ≡ some passwd
  pub has_data : e.has_authorization ≡ true
  pub complete : e.check_content (auth_message e uri) ≡ true
  pub digest : e.perform_digest (auth_message e uri) e.nonce e.opaque user passwd ≡ true

validate_authentication-IsAuthentic :
    (e : Env) (uri : CString) → validate_authentication e uri ≡ true → IsAuthentic e uri
unfolding validate_authentication
validate_authentication-IsAuthentic e uri h = elim (Option-cases e.username) [
  | inl n ↦ ground (arith, n, h)
  | inr (user, n) ↦ elim (Option-cases e.password) [
    | inl p ↦ ground (arith, n, p, h)
    | inr (passwd, p) ↦ record {
      user = user;
      passwd = passwd;
      user_is = n;
      passwd_is = p;
      has_data = ground (arith, n, p, h);
      complete = ground (arith, n, p, h);
      digest = ground (arith, n, p, h);
    }
  ]
]

-- A session is asked for only where the request is within the rate limit, its URI is a slash or
-- other byte and then the path of the CPE, and it is authentic.
pub asks_session-IsAuthentic :
    (e : Env) (cpe_url : Option CString) (l : Timestamps) (uri : Option CString) (len : ℕ)
    → asks_session (handle_request e cpe_url l uri len).actions ≡ true
    → (u : CString) × (uri ≡ some u)
      × (cpe_url ≡ some (drop 1 u))
      × ((check_server_availability e l).1 ≡ true)
      × IsAuthentic e u
unfolding handle_request validate_uri reply_http_unauthorized reply_http_no_content
asks_session-IsAuthentic e cpe_url l none len h = ground (arith, h)
asks_session-IsAuthentic e none l (some u) len h = ground (arith, h)
asks_session-IsAuthentic e (some url) l (some u) len h = (
  u,
  refl,
  ap some (sym (streq→eq (drop 1 u) url (ground (arith, h)))),
  ground (arith, h),
  validate_authentication-IsAuthentic e u (ground (arith, h)),
)

-- The request is not empty, within the rate limit and for the server's URI.
abbrev pub is_served : Env → Option CString → Timestamps → Option CString → ℕ → Bool
is_served e cpe_url l uri len =
    not (ltb len 1) && ((check_server_availability e l).1 && validate_uri e cpe_url uri)

-- A call that writes the response 204 fails.
abbrev pub loses_204 : Env → Bool
loses_204 e = e.status_fails || (e.length_fails || e.finalize_fails)

-- A call that writes the response to a request that is served fails.
abbrev pub loses_reply : Env → CString → Bool
loses_reply e uri =
    if validate_authentication e uri
    then not e.connection_refused && loses_204 e
    else loses_204 e || e.authenticate_fails

-- A request gets exactly one complete response, which has a status line and an end of its headers,
-- except where it is for the server's URI and within the rate limit and a call fails that writes its
-- 204 or 401; then it gets none.
pub responses-handle_request :
    (e : Env) (cpe_url : Option CString) (l : Timestamps) (uri : Option CString) (len : ℕ)
    → responses (handle_request e cpe_url l uri len).actions
      ≡ (if is_served e cpe_url l uri len && loses_reply e (uri_text uri) then 0 else 1)
unfolding handle_request reply_http_unauthorized reply_http_no_content
responses-handle_request e cpe_url l uri len = ground arith

-- Some response carries the code.
abbrev pub answers_with : ℕ → List Action → Bool
answers_with code [] = false
answers_with code (return_http_status c ∷ l) = c == code || answers_with code l
answers_with code (write_response (status_line c ∷ p) ∷ l) = c == code || answers_with code l
answers_with code (_ ∷ l) = answers_with code l

-- A request of one byte or more counts against the rate limit whatever its URI and credentials: the
-- list of timestamps is the one that the availability check leaves.
pub handle_request_stamps :
    (e : Env) (cpe_url : Option CString) (l : Timestamps) (uri : Option CString) (len : ℕ)
    → 0 < len
    → (handle_request e cpe_url l uri len).stamps ≡ (check_server_availability e l).0
unfolding handle_request
handle_request_stamps e cpe_url l uri len h = ground (arith, h)
