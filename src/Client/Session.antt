-- ===== src/Client/Session.antt =====
-- The session of dmmain/cwmpd_client.c: its start, the sending of a message, its end.
use tr069_manager.Base.{
  ℕ, ◌^◌, Bool, true, false, not, ◌&&◌, ◌||◌, Option, none, some, List, [], ◌∷◌, ◌++◌, leb, ◌==◌,
  if◌then◌else◌, CString, codes, streq, atoi, atol_is_zero, length, is_empty,
}
use tr069_manager.Client.Defs.{
  auth_basic, auth_none, Client, Action, close_session, session_timer, connect, keep_for_retry,
  resolve_dns, destroy_context, Env,
}
use tr069_manager.Client.Auth.{gen_auth_hdr}
use tr069_manager.Client.Address.{get_acsip, parse_url}

abbrev pub value_is : Option CString → (CString → Bool) → Bool
value_is none test = false
value_is (some text) test = test text

-- Whether an expired certificate of the ACS is taken.
unfoldable pub accepts_expired : Env → Bool
accepts_expired e = elim e.ssl_accept_expired [
  | none ↦ false
  | some text ↦
      if streq text (codes "Always")
      then true
      else streq text (codes "NTP")
        && value_is e.ntp_status (λ status. not (streq status (codes "Synchronized")))
]

-- cwmp_client_https_session_init
unfoldable pub https_session_init : Env → Client → Client
https_session_init e c =
    let c' = record c {
      connect_info = record c.connect_info {
        use_ssl = true;
        skip_hostname_check = value_is e.ssl_verify_hostname atol_is_zero;
        allow_selfsigned = value_is e.ssl_accept_selfsigned (λ text. not (atol_is_zero text));
        allow_expired = accepts_expired e;
      };
    } in
    (gen_auth_hdr e auth_basic [] c').0

-- cwmp_client_prepare_session
unfoldable pub prepare_session : Env → Client → Client
prepare_session e c =
    let c' = record c {
      connect_info = record {
        address = none;
        port = c.server_port;
        path = c.server_path;
        use_ssl = false;
        skip_hostname_check = false;
        allow_selfsigned = false;
        allow_expired = false;
      };
    } in
    if streq c.server_scheme (codes "https") then https_session_init e c' else c'

-- DM_CloseHttpSession; the mode is for the log.
unfoldable pub close_http_session : Client → Client
close_http_session c = record c {
  http_status = 0;
  auth_type = auth_none;
  connected = false;
  server_host = none;
  server_path = none;
  server_scheme = [];
  server_ip = none;
  pending_msg = none;
  jar = none;
  rcv_buf = none;
  auth_hdr = none;
  rcv_buf_len = 0;
}

-- The end of DM_SendHttpMessage, from the test of acs_server_host; true for 0.
unfoldable pub send_pending : Env → Client → Client × (List Action × Bool)
send_pending e c = elim c.server_host [
  | none ↦ (c, ([], false))
  | some host ↦
      let c' = record c { connect_info = record c.connect_info { address = some host } } in
      if e.connect_fails
      then (record c' { pending_msg = none }, (connect c'.connect_info ∷ [], false))
      else (c', (connect c'.connect_info ∷ session_timer c.session_timeout ∷ [], true))
]

abbrev pub add_actions : List Action → Client × (List Action × Bool) → Client × (List Action × Bool)
add_actions before (c, (actions, ok)) = (c, (before ++ actions, ok))

-- DM_SendHttpMessage of a message that is not `pending_msg` itself; `none` is NULL.
unfoldable pub send_http_message : Env → Option CString → Client → Client × (List Action × Bool)
send_http_message e none c = (c, ([], false))
send_http_message e (some message) c = add_actions (keep_for_retry message ∷ []) (
    send_pending e
      (record c { pending_msg = some (e.smm_translate false (message, length message)).0 }))

-- cwmp_client_auth_retry: DM_SendHttpMessage of `pending_msg`
unfoldable pub auth_retry : Env → Client → Client × (List Action × Bool)
auth_retry e c = elim c.pending_msg [ none ↦ (c, ([], false)) | some message ↦ send_pending e c ]

-- cwmp_client_sessionTimedOut
abbrev pub session_timed_out : Client → Client × List Action
session_timed_out c = (c, close_session false ∷ [])

abbrev pub default_session_timeout : ℕ
default_session_timeout = 45

-- session_timeout <= 0
abbrev pub is_nonpos_word : ℕ → Bool
is_nonpos_word t = t == 0 || leb (2 ^ 31) t

unfoldable pub read_timeout : Env → ℕ → ℕ
read_timeout e old =
    let t : ℕ = elim e.session_timeout_value [
      | none ↦ old
      | some text ↦ if old == 0 then old else atoi text
    ] in
    if is_nonpos_word t then default_session_timeout else t

-- The end of client_startSession, once an IP address is found.
unfoldable pub open_session : Env → Client → Client × (List Action × Bool)
open_session e c =
    let c' = prepare_session e c in
    let t = read_timeout e c'.session_timeout in
    (record c' { session_timeout = t }, (session_timer t ∷ [], true))

unfoldable pub wan_is_up : CString → Bool
wan_is_up host = not (is_empty host) && not (streq host (codes "0.0.0.0"))

-- client_startSession; true for 0.
unfoldable pub start_session : Env → Client → Client × (List Action × Bool)
start_session e c = elim e.connection_request_host [
  | none ↦ (c, ([], false))
  | some host ↦
      let parsed = parse_url e c in
      let found = get_acsip e parsed.0 in
      if wan_is_up host
      then if parsed.1.1
        then add_actions (parsed.1.0 ++ found.1.0)
            (if found.1.1 then open_session e found.0 else (found.0, (resolve_dns ∷ [], false)))
        else parsed
      else (c, ([], false))
]

-- cwmp_client_clear_ACSIP
unfoldable pub clear_acs_ip : Client → Client
clear_acs_ip c = record c { server_ip = none }

-- cwmp_client_stop, less the names of the certificate files
unfoldable pub client_stop : Client → Client × List Action
client_stop c = (close_http_session (record c { qos_ip = none }), destroy_context ∷ [])
