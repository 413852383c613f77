-- ===== src/Client/Examples.antt =====
-- Runs of the client at concrete data, and its theorems there.
use tr069_manager.Base.{
  ℕ, ◌+◌, ◌*◌, ◌/◌, ◌≡◌, refl, ◌≢◌, ◌↔◌, ◌⊎◌, true, false, not, Option, none, some, List, [], ◌∷◌,
  ◌++◌, arith, pos, negsuc, ltb, if◌then◌else◌, CString, codes, streq, starts_with, strstr, atoi,
  atol_is_zero, length, take, ℤ,
}
use tr069_manager.Cookie.{append_cookies, cookiejar_to_string}
use tr069_manager.Client.Defs.{
  auth_basic, auth_none, ConnectInfo, Client, user_agent, content_length, cookie_header,
  content_type, soap_action, close_session, auth_retry_timer, add_header, body_pending, write_body,
  parse_envelope, callback_dummy, Uri, Env,
}
use tr069_manager.Client.Auth.{
  basic_header, make_header, gen_auth_hdr, challenge_type, EncodesInRoom, gen_auth_hdr-basic,
}
use tr069_manager.Client.Address.{is_ipaddr, update_qos_info, choose_ip, get_acsip, parse_url}
use tr069_manager.Client.Callbacks.{
  new_wsi, write_headers, request_headers, handshake, http_writable, connection_closed,
  new_client_instantiated, established_client, completed_client,
}
use tr069_manager.Client.Session.{
  value_is, prepare_session, close_http_session, open_session, wan_is_up, start_session,
}
use tr069_manager.Client.Buffer.{
  run_callbacks, chunk_steps, holding, message_received, empty_body-undefined,
}
use tr069_manager.Client.Closing.{answered, closed_by_status, retry_after_401}
use tr069_manager.Client.Retry.{refused_times, KeepsRefusing, one_retry, times, retries_without_end}
use tr069_manager.Client.Qos.{update_all, changes, updates_told}
use tr069_manager.Client.Start.{IsOpen, start_session-IsOpen, session_timeout_source}
use tr069_manager.Client.Handshake.{handshake-writes_message}
use tr069_manager.Client.Reset.{fresh_request_headers}
use tr069_manager.Client.Tls.{prepare_session-checks}
use tr069_manager.Client.Source.{IsListed, IsKept, get_acsip_source, kept_inside}

abbrev pub connection : ConnectInfo
connection = record {
  address = none;
  port = pos 7547;
  path = some (codes "/cwmp");
  use_ssl = false;
  skip_hostname_check = false;
  allow_selfsigned = false;
  allow_expired = false;
}

-- A client with a message to send.
abbrev pub client : Client
client = record {
  auth_type = auth_none;
  server_host = some (codes "acs");
  server_ip = some (codes "10.0.0.1");
  server_port = pos 7547;
  server_path = some (codes "/cwmp");
  server_scheme = codes "http";
  http_status = 200;
  rcv_buf = none;
  rcv_buf_len = 0;
  session_timeout = 60;
  pending_msg = some (codes "<x>");
  jar = some (record { name = codes "id"; value = codes "7" } ∷ []);
  auth_hdr = none;
  connected = true;
  connect_info = connection;
  qos_ip = none;
  qos_port = negsuc 0;
}

-- base64 in place of which the text itself stands, with the test of the buffer's size
abbrev pub encode_plain : CString → ℕ → Option CString
encode_plain text size = if ltb (4 * ((length text + 2) / 3) + 1) size then some text else none

abbrev pub acs_uri : CString → Option Uri
acs_uri text =
    some (record {
      scheme = take 4 text;
      host = codes "acs";
      port = pos 0;
      path = some (codes "cwmp");
    })

abbrev pub env : Env
env = record {
  username = some (codes "u");
  password = some (codes "p");
  url = some (codes "http://acs/cwmp");
  acs_ip = some (codes "10.0.0.1");
  acs_ip_list = some (codes "10.0.0.12");
  connection_request_host = some (codes "10.1.1.1");
  session_timeout_value = some (codes "30");
  ssl_verify_hostname = some (codes "1");
  ssl_accept_selfsigned = some (codes "0");
  ssl_accept_expired = some (codes "NTP");
  ntp_status = some (codes "Unsynchronized");
  b64_encode = encode_plain;
  digest_response = λ challenge path username password. none;
  www_authenticate = some (codes "Basic realm=acs");
  set_cookie = [];
  set_cookie_copied = true;
  response_code = 401;
  ready_to_close = true;
  empty_post_sent = true;
  read_fails = false;
  strnncpy = λ chunk. chunk;
  smm_translate = λ incoming p. p;
  env_tag = codes "<e>";
  soap_is_valid = λ text. true;
  header_fits = λ h. true;
  connect_fails = false;
  parse_uri = acs_uri;
  is_ipv4 = λ text. streq text (codes "10.0.0.1");
  is_ipv6 = λ text. false;
  csv_to_list = λ text. text ∷ [];
  random = 5;
}

encode_plain-EncodesInRoom : EncodesInRoom encode_plain (λ text. text)
encode_plain-EncodesInRoom text size room = ground (arith, room)

gen_auth_hdr-basic_test :
    gen_auth_hdr env auth_basic [] client
    ≡ (record client { auth_hdr = some (codes "Basic " ++ codes "u:p") }, true)
gen_auth_hdr-basic_test =
    gen_auth_hdr-basic env (λ text. text) client [] (codes "u") (codes "p")
      encode_plain-EncodesInRoom refl refl

message_received_example :
    let text = codes "a<e>b" in
    (run_callbacks (new_wsi client) (chunk_steps env (codes "a<" ∷ codes "e>b" ∷ []))
      ≡ some (holding text client, []))
    × (run_callbacks (holding text client) ((env, completed_client) ∷ [])
        ≡ some (holding text client, parse_envelope text ∷ callback_dummy ∷ []))
unfolding strstr starts_with
message_received_example =
    message_received env client (codes "a<") (codes "e>b" ∷ []) refl (λ chunk nonnul. refl)
      ((omega arith, (omega arith, tt)), ((omega arith, (omega arith, (omega arith, tt))), tt)) refl

abbrev env_200 : Env
env_200 = record env { response_code = 200 }

empty_body-undefined_test :
    run_callbacks client (
      (env_200, new_client_instantiated)
      ∷ (env_200, established_client)
      ∷ (env_200, completed_client)
      ∷ [])
    ≡ none
empty_body-undefined_test = empty_body-undefined env_200 client refl

closed_by_status_test :
    ((connection_closed (answered env_200 client) ≡ close_session true ∷ [])
      ↔ (env_200.response_code ≡ 204))
    × (((connection_closed (answered env_200 client) ≡ []) ↔ (env_200.response_code ≡ 200))
        × ((connection_closed (answered env_200 client) ≡ close_session false ∷ [])
            ↔ ((env_200.response_code ≢ 204) × (env_200.response_code ≢ 200))))
closed_by_status_test = closed_by_status env_200 client (omega arith)

retry_after_401_test : connection_closed (answered env client) ≡ auth_retry_timer ∷ []
unfolding strstr starts_with challenge_type make_header basic_header
retry_after_401_test = retry_after_401 env client (codes "Basic realm=acs") refl refl

client-KeepsRefusing : KeepsRefusing env client
unfolding strstr starts_with challenge_type make_header basic_header
client-KeepsRefusing = record {
  challenge = codes "Basic realm=acs";
  header = codes "Basic u:p";
  username = codes "u";
  password = codes "p";
  message = codes "<x>";
  host = codes "acs";
  status = refl;
  challenge_is = refl;
  supported = refl;
  username_is = refl;
  password_is = refl;
  header_is = refl;
  pending_is = refl;
  host_is = refl;
  connects = refl;
}

retries_without_end_example :
    ((refused_times 5 env client).1 ≡ times 5 (one_retry client (codes "acs")))
    × ((refused_times 5 env client).0.pending_msg ≡ some (codes "<x>"))
unfolding client-KeepsRefusing
retries_without_end_example = retries_without_end 5 env client client-KeepsRefusing

abbrev two_updates : List (Option CString × ℤ)
two_updates = (some (codes "a"), pos 1) ∷ (some (codes "a"), pos 1) ∷ []

updates_told_test :
    ((update_all env two_updates client).1 ≡ changes env none (negsuc 0) two_updates)
    × ((update_all env two_updates client).0
        ≡ record client { qos_ip = some (codes "a"); qos_port = pos 1 })
updates_told_test = updates_told env two_updates client

client-starts : (start_session env client).1.1 ≡ true
unfolding start_session parse_url get_acsip choose_ip is_ipaddr update_qos_info open_session
    wan_is_up streq strstr starts_with
client-starts = refl

start_session-IsOpen_example : IsOpen (start_session env client).0 (start_session env client).1.0
start_session-IsOpen_example = start_session-IsOpen env client client-starts

session_timeout_source_test : (start_session env client).0.session_timeout ≡ atoi (codes "30")
unfolding atoi
session_timeout_source_test = session_timeout_source env client (codes "30") client-starts refl refl

abbrev new_client : Client
new_client = record client { session_timeout = 0 }

new_client-starts : (start_session env new_client).1.1 ≡ true
unfolding start_session parse_url get_acsip choose_ip is_ipaddr update_qos_info open_session
    wan_is_up streq strstr starts_with
new_client-starts = refl

first_timeout_test : (start_session env new_client).0.session_timeout ≡ 45
unfolding atoi
first_timeout_test = session_timeout_source env new_client (codes "30") new_client-starts refl refl

handshake-writes_message_test :
    ((handshake env client).actions
      ≡ add_header user_agent
        ∷ add_header (content_length 3)
        ∷ add_header (cookie_header (codes "id=7"))
        ∷ add_header content_type
        ∷ add_header soap_action
        ∷ body_pending true
        ∷ [])
    × (http_writable (handshake env client).client
        ≡ write_body (codes "<x>") ∷ body_pending false ∷ [])
unfolding handshake request_headers write_headers cookiejar_to_string append_cookies
handshake-writes_message_test = handshake-writes_message env client (codes "<x>") refl refl

fresh_request_headers_example :
    request_headers (start_session env (close_http_session client)).0 (codes "<x>")
    ≡ user_agent ∷ content_length 3 ∷ content_type ∷ soap_action ∷ []
unfolding start_session parse_url get_acsip choose_ip is_ipaddr update_qos_info open_session
    wan_is_up streq strstr starts_with prepare_session close_http_session
fresh_request_headers_example = fresh_request_headers env client (codes "<x>") refl

abbrev tls_client : Client
tls_client = record client { server_scheme = codes "https" }

prepare_session-checks_test :
    let info = (prepare_session env tls_client).connect_info in
    (info.use_ssl ≡ true)
    × (((info.allow_expired ≡ true) ↔ (
          (env.ssl_accept_expired ≡ some (codes "Always"))
          ⊎ ((env.ssl_accept_expired ≡ some (codes "NTP"))
              × (value_is env.ntp_status (λ s. not (streq s (codes "Synchronized"))) ≡ true))))
        × ((info.skip_hostname_check ≡ true)
            ↔ (value_is env.ssl_verify_hostname atol_is_zero ≡ true)))
unfolding streq
prepare_session-checks_test = prepare_session-checks env tls_client refl

get_acsip_source_test :
    ((is_ipaddr env client.server_host ≡ true) × (client.server_host ≡ some (codes "10.0.0.1")))
    ⊎ (IsKept env client (codes "10.0.0.1") ⊎ IsListed env (codes "10.0.0.1"))
unfolding get_acsip choose_ip is_ipaddr update_qos_info streq strstr starts_with
get_acsip_source_test = get_acsip_source env client (codes "10.0.0.1") refl refl

kept_inside_test :
    ((get_acsip env client).0.server_ip ≡ some (codes "10.0.0.1"))
    × ((get_acsip env client).1.1 ≡ true)
unfolding is_ipaddr streq
kept_inside_test = kept_inside env client [] (codes "10.0.0.1") (codes "2") refl refl refl refl
