-- ===== src/Client/Callbacks.antt =====
-- The callbacks that libwebsockets makes into dmmain/cwmpd_client.c, and their dispatch.
use mathlib.Core.Option
use tr069_manager.Base.{
  ◌+◌, Bool, true, false, not, ◌&&◌, Option, none, some, List, [], ◌∷◌, ◌++◌, ◌==◌, if◌then◌else◌,
  is_some, CString, strstr, length, take, is_empty,
}
use tr069_manager.Cookie.{CookieJar, cookiejar_build, cookiejar_to_string}
use tr069_manager.Client.Defs.{
  AuthType, auth_basic, auth_digest, auth_unsupported, auth_none, Client, Header, user_agent,
  content_length, cookie_header, authorization, content_type, soap_action, Action, close_session,
  auth_retry_timer, kill_connection, store_acs_ip, add_header, body_pending, write_body,
  parse_envelope, callback_dummy, Code, code_continue, code_error, code_skip, Env, Outcome,
}
use tr069_manager.Client.Auth.{get_authentication_hdr}

abbrev continues : Client → List Action → Outcome
continues c actions = record { client = c; actions = actions; code = code_continue }

abbrev fails : Client → Outcome
fails c = record { client = c; actions = []; code = code_error }

abbrev skips : Client → Outcome
skips c = record { client = c; actions = []; code = code_skip }

-- cwmp_client_new_wsi_cb
unfoldable pub new_wsi : Client → Client
new_wsi c = record c { rcv_buf = none; rcv_buf_len = 0 }

abbrev jar_or_new : Option CookieJar → CookieJar
jar_or_new none = []
jar_or_new (some jar) = jar

-- cwmp_client_handle_cookies; cwmpd_cookie_cookiejar_init is taken to succeed.
unfoldable pub handle_cookies : Env → Client → Client
handle_cookies e c = if is_empty e.set_cookie then c else record c {
  jar =
      (cookiejar_build (some (jar_or_new c.jar))
        (some (if e.set_cookie_copied then e.set_cookie else []))).0;
}

-- cwmp_client_connection_established_cb
unfoldable pub connection_established : Env → Client → Outcome
connection_established e old =
    let c = record old { http_status = e.response_code } in
    if e.response_code == 204
    then continues (record c { pending_msg = none })
        (if e.ready_to_close && e.empty_post_sent then kill_connection ∷ [] else [])
    else if e.response_code == 401
    then continues (get_authentication_hdr e c) (kill_connection ∷ [])
    else if e.response_code == 200
    then continues (handle_cookies e (record c { connected = true }))
        (if c.connected then [] else store_acs_ip c.server_ip ∷ [])
    else continues c []

-- cwmp_client_receive_http_cb; the chunk is written at rcv_buf + rcv_buf_len.
unfoldable pub receive_http : Env → CString → Client → Client
receive_http e chunk c = record c {
  rcv_buf = some (take c.rcv_buf_len (Option.get_or c.rcv_buf []) ++ e.strnncpy chunk);
  rcv_buf_len = c.rcv_buf_len + length chunk;
}

-- cwmp_client_http_complete_cb; `none` where it calls strstr on NULL.
unfoldable pub http_complete : Env → Client → Option Outcome
http_complete e c =
    if c.http_status == 200
    then elim c.rcv_buf [
      | none ↦ none
      | some text ↦
          let received = e.smm_translate true (text, c.rcv_buf_len) in
          if strstr text e.env_tag
          then some (
              continues (record c { rcv_buf = some received.0; rcv_buf_len = received.1 })
                ((if e.soap_is_valid received.0
                    then parse_envelope received.0
                    else close_session false)
                  ∷ []))
          else some (continues c [])
    ]
    else some (continues c [])

-- The headers up to the first one that does not fit; true where all fit.
unfoldable pub write_headers : Env → List Header → List Action × Bool
write_headers e [] = ([], true)
write_headers e (h ∷ hs) =
    let rest = write_headers e hs in
    if e.header_fits h then (add_header h ∷ rest.0, rest.1) else ([], false)

abbrev pub optional_header : (CString → Header) → Option CString → List Header
optional_header h none = []
optional_header h (some text) = h text ∷ []

unfoldable pub request_headers : Client → CString → List Header
request_headers c message =
    (user_agent ∷ content_length (length message) ∷ [])
    ++ (optional_header cookie_header (cookiejar_to_string c.jar)
        ++ (optional_header authorization c.auth_hdr
            ++ (if is_empty message then [] else content_type ∷ soap_action ∷ [])))

-- cwmp_client_handshake_cb
unfoldable pub handshake : Env → Client → Outcome
handshake e c = elim c.pending_msg [
  | none ↦ fails c
  | some message ↦
      let written = write_headers e (request_headers c message) in
      if written.1
      then continues c (written.0 ++ body_pending true ∷ [])
      else record { client = c; actions = written.0; code = code_error }
]

-- cwmp_client_http_writable_cb
unfoldable pub http_writable : Client → List Action
http_writable c = elim c.pending_msg [
  | none ↦ []
  | some message ↦ write_body message ∷ body_pending false ∷ []
]

abbrev pub is_unsupported : AuthType → Bool
is_unsupported auth_unsupported = true
is_unsupported auth_basic = false
is_unsupported auth_digest = false
is_unsupported auth_none = false

-- cwmp_client_connection_closed_cb
unfoldable pub connection_closed : Client → List Action
connection_closed c =
    if c.http_status == 204
    then close_session true ∷ []
    else if c.http_status == 401
    then if not (is_unsupported c.auth_type) && is_some c.auth_hdr
      then auth_retry_timer ∷ []
      else close_session false ∷ []
    else if c.http_status == 200
    then []
    else close_session false ∷ []

pub data Reason : Type 0 where
  connection_error : Reason
  new_client_instantiated : Reason
  established_client : Reason
  receive_client : Reason
  receive_client_read : CString → Reason
  completed_client : Reason
  append_handshake_header : Reason
  client_writeable : Reason
  closed_client : Reason
  other_reason : Reason

unfoldable pub call_handler : Env → Client → Reason → Option Outcome
call_handler e c connection_error = some (continues c (close_session false ∷ []))
call_handler e c new_client_instantiated = some (continues (new_wsi c) [])
call_handler e c established_client = some (connection_established e c)
call_handler e c receive_client = some (if e.read_fails then fails c else skips c)
call_handler e c (receive_client_read chunk) = some (skips (receive_http e chunk c))
call_handler e c completed_client = http_complete e c
call_handler e c append_handshake_header = some (handshake e c)
call_handler e c client_writeable = some (continues c (http_writable c))
call_handler e c closed_client = some (continues c (connection_closed c))
call_handler e c other_reason = some (continues c [])

abbrev then_dummy : Outcome → Code → Outcome
then_dummy o code_continue = record o { actions = o.actions ++ callback_dummy ∷ [] }
then_dummy o code_error = o
then_dummy o code_skip = o

-- cwmp_client_http_callback
unfoldable pub http_callback : Env → Client → Reason → Option Outcome
http_callback e c reason = Option.map (λ o. then_dummy o o.code) (call_handler e c reason)
