-- ===== src/Server/Examples.antt =====
-- The theorems about the server at concrete requests.
use tr069_manager.Base.{
  ◌≡◌, refl, ◌⊎◌, true, false, none, some, [], ◌∷◌, arith, CString, codes, streq, atoi, drop,
}
use tr069_manager.Requests.{
  max_connections_add, drop_stale, read_limits, over_limit, max_connections_reached,
  check_availability,
}
use tr069_manager.Server.{
  return_http_status, Env, validate_uri, check_server_availability, reply_http_no_content,
  auth_message, validate_authentication, answer_request, handle_request,
}
use tr069_manager.Server.Safety.{
  asks_session, responses, IsAuthentic, asks_session-IsAuthentic, responses-handle_request,
  handle_request_stamps,
}
use tr069_manager.Server.Lifecycle.{
  Globals, fetched, Settings, server_start, server_stop, stop-refuses,
}

-- A request that is let in; the digest check accepts the user "acs".
abbrev pub good_env : Env
good_env = record {
  now = 100;
  later = 100;
  limit_values = codes "5" ∷ codes "60" ∷ [];
  default_max = 50;
  default_freq = 3600;
  has_get_uri = true;
  has_http = true;
  has_authorization = true;
  auth_data = codes "user=acs";
  authorization_token = codes "Authorization: Digest";
  username = some (codes "acs");
  password = some (codes "secret");
  nonce = codes "n";
  opaque = codes "o";
  digest_message = codes "Digest realm=x";
  check_content = λ m. true;
  perform_digest = λ m n o u p. streq u (codes "acs");
  connection_refused = false;
  status_fails = false;
  authenticate_fails = false;
  length_fails = false;
  finalize_fails = false;
  transaction_completed = false;
}

-- The headers of a response do not fit.
abbrev broken_env : Env
broken_env = record good_env { length_fails = true }

accepted :
    asks_session (handle_request good_env (some (codes "path")) [] (some (codes "/path")) 5).actions
    ≡ true
unfolding handle_request answer_request reply_http_no_content validate_uri check_server_availability
    check_availability max_connections_reached drop_stale over_limit read_limits atoi streq
    validate_authentication auth_message max_connections_add
accepted = refl

asks_session-IsAuthentic_example :
    (u : CString) × (some (codes "/path") ≡ some u)
    × (some (codes "path") ≡ some (drop 1 u))
    × ((check_server_availability good_env []).1 ≡ true)
    × IsAuthentic good_env u
asks_session-IsAuthentic_example =
    asks_session-IsAuthentic good_env (some (codes "path")) [] (some (codes "/path")) 5 accepted

responses-handle_request_example :
    responses (handle_request broken_env (some (codes "path")) [] (some (codes "/path")) 5).actions
    ≡ 0
unfolding validate_uri check_server_availability check_availability max_connections_reached
    drop_stale over_limit read_limits atoi streq validate_authentication auth_message
responses-handle_request_example =
    responses-handle_request broken_env (some (codes "path")) [] (some (codes "/path")) 5

handle_request_stamps_test :
    (handle_request good_env (some (codes "path")) [] (some (codes "/wrong")) 6).stamps
    ≡ (check_server_availability good_env []).0
handle_request_stamps_test =
    handle_request_stamps good_env (some (codes "path")) [] (some (codes "/wrong")) 6 (omega arith)

abbrev up_settings : Settings
up_settings = record {
  enable = fetched (some (codes "1"));
  local_ip = fetched (some (codes "192.0.2.1"));
  request_port = fetched (some (codes "7547"));
  request_path = fetched (some (codes "path"));
  context_created = true;
  vhost_created = true;
}

abbrev blank : Globals
blank = record {
  cpe_url = none;
  vhost_name = none;
  context = false;
  vhost = false;
  port = 0;
  stamps = 5 ∷ [];
}

stop-refuses_test :
    let g = server_stop (server_start up_settings blank).0 in
    let r = handle_request good_env g.cpe_url g.stamps (some (codes "/path")) 5 in
    (g.context ≡ false)
    × (g.vhost ≡ false)
    × ((r.actions ≡ return_http_status 404 ∷ []) ⊎ (r.actions ≡ return_http_status 503 ∷ []))
stop-refuses_test =
    stop-refuses (server_start up_settings blank).0 good_env (codes "/path") 5 (omega arith)
