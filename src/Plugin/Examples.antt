-- ===== src/Plugin/Examples.antt =====
-- Runs of the plugin's address and daemon, and their theorems at concrete states.
use tr069_manager.Base.{
  ◌≡◌, refl, ◌⊎◌, inl, inr, true, false, none, some, List, [], ◌∷◌, ◌++◌, CString, codes, streq,
  starts_with,
}
use tr069_manager.Plugin.Defs.{
  ipv6_preferred, ip_any, host_changed, set_service, start_process, Plugin, Env,
}
use tr069_manager.Plugin.Path.{
  random_token, mac_token, token_at, random_from, generate_random_url_path,
  generate_mac_based_url_path, new_path, set_path, create_conreq_path,
}
use tr069_manager.Plugin.Service.{open_listening_port, close_listening_port, start_cwmpd}
use tr069_manager.Plugin.Url.{
  assemble_url, update_conreq_host, update_conn_req_url, path_event, ensure_process, ensure_path,
  host_event,
}
use tr069_manager.Plugin.Interface.{
  get_local_ip, update_local_ip, ipv4_address_changed, open_queries, find_ip,
}
use tr069_manager.Plugin.Events.{
  Event, init_timer_expired, change_told, ipv4_came, process_ended, deferred_init, tell, handle,
  run_events,
}
use tr069_manager.Plugin.Held.{start_implies-init_done}
use tr069_manager.Plugin.Choice.{get_local_ip-first_set, IsSettled}
use tr069_manager.Plugin.Settled.{run_events-IsSettled}
use tr069_manager.Plugin.Chars.{IsPathOf, new_path-IsPathOf, mac_path-constant}
use tr069_manager.Plugin.Port.{open_after, port-left_open}
use tr069_manager.Plugin.Announced.{in_env, origin, announced-IsAccepted}
use tr069_manager.Server as Server
use tr069_manager.Server.Examples as ServerExamples

abbrev env : Env
env = record {
  is_ipv6 = λ text. false;
  decimal = λ n. codes "7547";
  url_path = none;
  is_standalone = false;
  hw_addr = λ ip. [];
  rand = λ i. i;
  start_works = true;
  max_wait_time = 30;
}

-- The plugin before its set-up, with an interface and the mode for any address.
abbrev start : Plugin
start = record {
  update_url = true;
  host = codes "0.0.0.0";
  port = 7547;
  path = [];
  path_type = codes "Random";
  url = [];
  parameter_key = [];
  local_ip = [];
  interface = codes "wan";
  allowed_address = [];
  init_done = false;
  path_created = false;
  start_avoided = false;
  process = none;
  restart_timers = 0;
  mode = ip_any;
  ipv4 = [];
  ipv6 = [];
  has_queries = false;
  ipv6_timer = none;
  lost_timers = 0;
  changes = host_changed ∷ [];
  log = [];
}

-- The set-up, an address, and its two changes told.
abbrev events : List Event
events =
    change_told
    ∷ init_timer_expired
    ∷ ipv4_came (some (codes "10.0.0.7"))
    ∷ change_told
    ∷ change_told
    ∷ []

run_test :
    ((run_events (in_env env events) start).url ≡ codes "http://10.0.0.7:7547/abcdefghijklmnop")
    × ((run_events (in_env env events) start).log
        ≡ start_process ∷ set_service 7547 (codes "wan") [] 4 ∷ [])
unfolding run_events handle tell host_event path_event update_conn_req_url assemble_url ensure_path
    ensure_process create_conreq_path new_path generate_random_url_path random_from token_at
    set_path streq starts_with start_cwmpd open_listening_port close_listening_port deferred_init
    find_ip open_queries ipv4_address_changed update_local_ip get_local_ip update_conreq_host
run_test = (refl, refl)

start_implies-init_done_example : (run_events (in_env env events) start).init_done ≡ true
unfolding run_events handle tell host_event path_event update_conn_req_url assemble_url ensure_path
    ensure_process create_conreq_path new_path generate_random_url_path random_from token_at
    set_path streq starts_with start_cwmpd open_listening_port close_listening_port deferred_init
    find_ip open_queries ipv4_address_changed update_local_ip get_local_ip update_conreq_host
start_implies-init_done_example =
    start_implies-init_done (in_env env events) start refl refl refl refl

run_events-IsSettled_example : IsSettled (run_events (in_env env events) start)
run_events-IsSettled_example =
    run_events-IsSettled (in_env env events) start (refl, (refl, (refl, (refl, (refl, tt)))))
      (refl, inr refl)

new_path-IsPathOf_example :
    IsPathOf random_token 16 (codes "abcdefghijklmnop")
    ⊎ IsPathOf mac_token 16 (codes "abcdefghijklmnop")
unfolding new_path streq starts_with generate_random_url_path random_from token_at
new_path-IsPathOf_example =
    new_path-IsPathOf env (codes "Random") (codes "10.0.0.7") (codes "abcdefghijklmnop") refl refl

mac_path-constant_test :
    generate_mac_based_url_path env (codes "10.0.0.7") ≡ codes "vfEGSLtbxk8bLtGA"
mac_path-constant_test = mac_path-constant env (codes "10.0.0.7") refl

port-left_open_example :
    open_after false (handle env process_ended (start_cwmpd env start)).log ≡ true
port-left_open_example = port-left_open env env start refl refl

announced-IsAccepted_example :
    let s' = run_events (in_env env events) start in
    (uri : CString) × (s'.url ≡ origin env s'.host s'.port ++ uri)
    × (uri ≡ codes "/" ++ s'.path)
    × (Server.validate_uri ServerExamples.good_env (some s'.path) (some uri) ≡ true)
unfolding run_events handle tell host_event path_event update_conn_req_url assemble_url ensure_path
    ensure_process create_conreq_path new_path generate_random_url_path random_from token_at
    set_path streq starts_with start_cwmpd open_listening_port close_listening_port deferred_init
    find_ip open_queries ipv4_address_changed update_local_ip get_local_ip update_conreq_host
announced-IsAccepted_example =
    announced-IsAccepted env ServerExamples.good_env events start
      (refl, (refl, (refl, (refl, (refl, tt))))) (refl, inl refl) refl refl

get_local_ip-first_set_test : get_local_ip ipv6_preferred (codes "10.0.0.7") [] ≡ codes "10.0.0.7"
get_local_ip-first_set_test = get_local_ip-first_set ipv6_preferred (codes "10.0.0.7") []
