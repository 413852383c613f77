-- ===== src/Plugin/Held.antt =====
-- The start of the daemon waits for the end of the plugin's set-up (cwmp_plugin.c and
-- cwmp_plugin_connection_request.c of cwmp_plugin).
use mathlib.Core.Option
use tr069_manager.Base.{
  ◌-◌, ◌≡◌, refl, inl, inr, Bool, true, false, not, ◌&&◌, ◌||◌, none, some, List, [], ◌∷◌, ◌++◌,
  arith, ◌==◌, if◌then◌else◌, Bool-cases, Option-cases, is_some, CString, List-cases,
}
use tr069_manager.Plugin.Defs.{
  Change, host_changed, path_changed, port_changed, Action, set_service, delete_service,
  start_process, Plugin, Env,
}
use tr069_manager.Plugin.Path.{new_path, set_path, create_conreq_path}
use tr069_manager.Plugin.Service.{
  open_listening_port, close_listening_port, start_cwmpd, process_stopped,
}
use tr069_manager.Plugin.Url.{
  update_conreq_host, update_conreq_port, update_conn_req_url, management_update_url, path_event,
  port_event, ensure_process, ensure_path, host_event,
}
use tr069_manager.Plugin.Interface.{
  get_local_ip, update_local_ip, ipv6_address_changed, ipv4_address_changed,
  write_preferred_ip_version, close_queries, open_queries, write_interface, find_ip,
}
use tr069_manager.Plugin.Events.{
  Event, init_timer_expired, change_told, ipv4_came, ipv6_came, ipv6_timer_expired,
  lost_timer_expired, mode_written, interface_written, port_set, url_set, process_ended,
  restart_timer_expired, deferred_init, tell, handle, run_events,
}

abbrev pub is_start : Action → Bool
is_start start_process = true
is_start action = false

abbrev pub has_start : List Action → Bool
has_start [] = false
has_start (a ∷ l) = is_start a || has_start l

has_start-append : (l l' : List Action) → has_start (l ++ l') ≡ (has_start l || has_start l')
has_start-append [] l' = refl
has_start-append (a ∷ l) l' = ground (arith, has_start-append l l')

-- The set-up is done, or there is no process, none was started and none will be by a timer.
abbrev pub is_held : Plugin → Bool
is_held s =
    s.init_done || (not (is_some s.process) && (s.restart_timers == 0 && not (has_start s.log)))

open-is_held : (e : Env) (s : Plugin) → is_held s ≡ true → is_held (open_listening_port e s) ≡ true
unfolding open_listening_port
open-is_held e s held =
    let action =
      set_service s.port s.interface s.allowed_address (if e.is_ipv6 s.local_ip then 6 else 4) in
    ground (arith, held, has_start-append s.log (action ∷ []))

close-is_held : (s : Plugin) → is_held s ≡ true → is_held (close_listening_port s) ≡ true
unfolding close_listening_port
close-is_held s held = ground (arith, held, has_start-append s.log (delete_service ∷ []))

-- A start after the set-up, or with no set-up for a daemon on its own.
start-done : (e : Env) (s : Plugin) → s.init_done ≡ true → (start_cwmpd e s).init_done ≡ true
unfolding start_cwmpd open_listening_port
start-done e s ready = ground (arith, ready)

update_conn_req_url-is_held :
    (e : Env) (s : Plugin) → is_held s ≡ true → is_held (update_conn_req_url e s) ≡ true
unfolding update_conn_req_url
update_conn_req_url-is_held e s held = ground (arith, held)

update_conreq_host-is_held :
    (ip : CString) (s : Plugin) → is_held s ≡ true → is_held (update_conreq_host ip s) ≡ true
unfolding update_conreq_host
update_conreq_host-is_held ip s held = ground (arith, held)

update_local_ip-is_held : (s : Plugin) → is_held s ≡ true → is_held (update_local_ip s) ≡ true
unfolding update_local_ip
update_local_ip-is_held s held =
    update_conreq_host-is_held (get_local_ip s.mode s.ipv4 s.ipv6) (record s { ipv6_timer = none })
      held

ensure_process-is_held :
    (e : Env) (s : Plugin) → is_held s ≡ true → is_held (ensure_process e s) ≡ true
unfolding ensure_process
ensure_process-is_held e s held = elim (Bool-cases (Option.get_or s.process false)) [
  | inl r ↦ ground (arith, r, open-is_held e s held)
  | inr r ↦ elim (Bool-cases s.init_done) [
    | inl d ↦ ground (arith, r, d, start-done e s d)
    | inr d ↦ ground (arith, r, d, held)
  ]
]

ensure_path-is_held : (e : Env) (s : Plugin) → is_held s ≡ true → is_held (ensure_path e s) ≡ true
unfolding ensure_path create_conreq_path set_path
ensure_path-is_held e s held = elim (Option-cases (new_path e s.path_type s.host)) [
  | inl n ↦ ground (arith, n, held)
  | inr (path, n) ↦ ground (arith, n, held)
]

host_event-is_held : (e : Env) (s : Plugin) → is_held s ≡ true → is_held (host_event e s) ≡ true
unfolding host_event
host_event-is_held e s held =
    let s' = update_conn_req_url e s in
    let held' = update_conn_req_url-is_held e s held in
    let path = ensure_path-is_held e s' held' in
    ground (arith, held, close-is_held s' held', ensure_process-is_held e (ensure_path e s') path)

tell-is_held : (e : Env) (c : Change) (s : Plugin) → is_held s ≡ true → is_held (tell e c s) ≡ true
unfolding tell path_event port_event
tell-is_held e host_changed s held = host_event-is_held e s held
tell-is_held e path_changed s held = update_conn_req_url-is_held e s held
tell-is_held e port_changed s held =
    open-is_held e (update_conn_req_url e s) (update_conn_req_url-is_held e s held)

init-is_held : (e : Env) (s : Plugin) → is_held (deferred_init e s) ≡ true
unfolding deferred_init find_ip open_queries
init-is_held e s =
    let s' = find_ip (record s { init_done = true }) in
    let ready : s'.init_done ≡ true = ground arith in ground (arith, ready, start-done e s' ready)

restart-is_held :
    (e : Env) (s : Plugin) → is_held s ≡ true → is_held (handle e restart_timer_expired s) ≡ true
unfolding handle
restart-is_held e s held = elim (Bool-cases s.init_done) [
  | inl d ↦
      let s' = record s { restart_timers = s.restart_timers - 1 } in
      ground (arith, d, start-done e s' d)
  | inr d ↦ ground (arith, d, held)
]

stopped-is_held :
    (e : Env) (s : Plugin) → is_held s ≡ true → is_held (handle e process_ended s) ≡ true
unfolding handle process_stopped close_listening_port
stopped-is_held e s held = ground (arith, held)

handle-is_held :
    (e : Env) (event : Event) (s : Plugin) → is_held s ≡ true → is_held (handle e event s) ≡ true
unfolding handle ipv4_address_changed ipv6_address_changed write_preferred_ip_version
    write_interface open_queries close_queries update_conreq_port management_update_url
handle-is_held e init_timer_expired s held = init-is_held e s
handle-is_held e change_told s held = elim (List-cases s.changes) [
  | inl n ↦ ground (arith, n, held)
  | inr (c, (l, n)) ↦ ground (arith, n, tell-is_held e c (record s { changes = l }) held)
]
handle-is_held e (ipv4_came ip) s held =
    let s' = record s { ipv4 = Option.get_or ip [] } in
    ground (arith, held, update_local_ip-is_held s' held)
handle-is_held e (ipv6_came ip) s held =
    let s' = record s { ipv6 = Option.get_or ip [] } in
    ground (arith, held, update_local_ip-is_held s' held)
handle-is_held e ipv6_timer_expired s held = ground (arith, held, update_local_ip-is_held s held)
handle-is_held e lost_timer_expired s held =
    let s' = record s { lost_timers = s.lost_timers - 1 } in
    ground (arith, held, update_local_ip-is_held s' held)
handle-is_held e (mode_written none) s held = held
handle-is_held e (mode_written (some mode)) s held = held
handle-is_held e (interface_written name) s held = ground (arith, held)
handle-is_held e (port_set port) s held = ground (arith, held)
handle-is_held e (url_set update none port) s held = ground (arith, held)
handle-is_held e (url_set update (some host) port) s held = ground (arith, held)
handle-is_held e process_ended s held = stopped-is_held e s held
handle-is_held e restart_timer_expired s held = restart-is_held e s held

run_events-is_held :
    (events : List (Env × Event)) (s : Plugin)
    → is_held s ≡ true
    → is_held (run_events events s) ≡ true
unfolding run_events
run_events-is_held [] s held = held
run_events-is_held ((e, event) ∷ events) s held =
    run_events-is_held events (handle e event s) (handle-is_held e event s held)

-- The daemon is not started before the set-up of the plugin is done: from a state with no process,
-- no timer of a restart and no start so far, after any events, if the process was ever started or
-- there is one then init_done is set.
pub start_implies-init_done :
    (events : List (Env × Event)) (s : Plugin)
    → s.process ≡ none
    → s.restart_timers ≡ 0
    → has_start s.log ≡ false
    → (has_start (run_events events s).log || is_some (run_events events s).process) ≡ true
    → (run_events events s).init_done ≡ true
start_implies-init_done events s absent quiet fresh started =
    let held : is_held s ≡ true = ground (arith, absent, quiet, fresh) in
    ground (arith, started, run_events-is_held events s held)
