-- ===== src/Plugin/Announced.antt =====
-- The URL of the connection requests over all events (cwmp_plugin/cwmp_plugin_connection_request.c,
-- dmmain/cwmpd_server.c).
use mathlib.Core.Option
use tr069_manager.Base.{
  ℕ, ◌+◌, ◌-◌, ◌*◌, ◌%◌, ◌^◌, ◌≡◌, refl, ap, ◌∙◌, inl, inr, Bool, true, false, ◌&&◌, Option, none,
  some, List, [], ◌∷◌, ◌++◌, append-nil, append_assoc, arith, ltb, if◌then◌else◌, is_some, CString,
  codes, streq_refl, All, is_empty, List-cases,
}
use tr069_manager.Plugin.Defs.{WanIpMode, ipv4_only, ipv6_preferred, ip_any, Plugin, Env}
use tr069_manager.Plugin.Service.{
  open_listening_port, close_listening_port, start_cwmpd, process_stopped,
}
use tr069_manager.Plugin.Url.{assemble_url}
use tr069_manager.Plugin.Interface.{
  get_local_ip, update_local_ip, ipv6_address_changed, ipv4_address_changed,
  write_preferred_ip_version, close_queries, open_queries, write_interface, find_ip,
}
use tr069_manager.Plugin.Events.{
  Event, init_timer_expired, change_told, ipv4_came, ipv6_came, ipv6_timer_expired,
  lost_timer_expired, mode_written, interface_written, port_set, url_set, process_ended,
  restart_timer_expired, deferred_init, handle, run_events,
}
use tr069_manager.Plugin.Current.{
  IsCurrent, SameUrl, SameUrl-IsCurrent, if-IsCurrent, start-SameUrl, tell-IsCurrent,
  update_conreq_host-IsCurrent, update_conreq_port-IsCurrent,
}
use tr069_manager.Server as Server

update_local_ip-IsCurrent : (e : Env) (s : Plugin) → IsCurrent e s → IsCurrent e (update_local_ip s)
unfolding update_local_ip
update_local_ip-IsCurrent e s old =
    let s' = record s { ipv6_timer = none } in
    update_conreq_host-IsCurrent e (get_local_ip s.mode s.ipv4 s.ipv6) s' old

ipv4_in :
    (e : Env) (mode : WanIpMode) (empty : Bool) (t u : Plugin)
    → IsCurrent e t
    → IsCurrent e u
    → IsCurrent e (elim mode [ ipv6_preferred ↦ if empty then t else u | _ ↦ u ])
ipv4_in e ipv4_only empty t u p q = q
ipv4_in e ip_any empty t u p q = q
ipv4_in e ipv6_preferred true t u p q = p
ipv4_in e ipv6_preferred false t u p q = q

ipv6_in :
    (e : Env) (mode : WanIpMode) (t u : Plugin)
    → IsCurrent e t
    → IsCurrent e u
    → IsCurrent e (elim mode [ ipv4_only ↦ t | _ ↦ u ])
ipv6_in e ipv4_only t u p q = p
ipv6_in e ip_any t u p q = q
ipv6_in e ipv6_preferred t u p q = q

ipv4-IsCurrent :
    (e : Env) (ip : Option CString) (s : Plugin)
    → IsCurrent e s
    → IsCurrent e (ipv4_address_changed e ip s)
unfolding ipv4_address_changed
ipv4-IsCurrent e ip s old =
    let s' = record s { ipv4 = Option.get_or ip [] } in
    let waits = record s' {
      ipv6_timer = some (e.max_wait_time * 1000 % 2 ^ 32);
      lost_timers = s.lost_timers + (if is_some s.ipv6_timer then 1 else 0);
    } in
    ipv4_in e s.mode (is_empty s.ipv6) waits (update_local_ip s') old
      (update_local_ip-IsCurrent e s' old)

ipv6-IsCurrent :
    (e : Env) (ip : Option CString) (s : Plugin)
    → IsCurrent e s
    → IsCurrent e (ipv6_address_changed ip s)
unfolding ipv6_address_changed
ipv6-IsCurrent e ip s old =
    let s' = record s { ipv6 = Option.get_or ip [] } in
    ipv6_in e s.mode s' (update_local_ip s') old (update_local_ip-IsCurrent e s' old)

-- An event but a call of updateConnectionRequestURL.
abbrev pub is_url_kept : Event → Bool
is_url_kept (url_set update host port) = false
is_url_kept event = true

init-SameUrl : (e : Env) (s : Plugin) → SameUrl s (deferred_init e s)
unfolding deferred_init find_ip open_queries start_cwmpd open_listening_port
init-SameUrl e s =
    (ground arith, ground arith, ground arith, ground arith, ground arith, ground arith)

process-SameUrl : (e : Env) (s : Plugin) → SameUrl s (handle e process_ended s)
unfolding handle process_stopped close_listening_port
process-SameUrl e s =
    (ground arith, ground arith, ground arith, ground arith, ground arith, ground arith)

interface-SameUrl :
    (e : Env) (name : CString) (s : Plugin) → SameUrl s (handle e (interface_written name) s)
unfolding handle write_interface open_queries close_queries
interface-SameUrl e name s =
    (ground arith, ground arith, ground arith, ground arith, ground arith, ground arith)

handle-IsCurrent :
    (e : Env) (event : Event) (s : Plugin)
    → is_url_kept event ≡ true
    → IsCurrent e s
    → IsCurrent e (handle e event s)
unfolding handle write_preferred_ip_version
handle-IsCurrent e init_timer_expired s kept old =
    SameUrl-IsCurrent e s (deferred_init e s) (init-SameUrl e s) old
handle-IsCurrent e change_told s kept old = elim (List-cases s.changes) [
  | inl n ↦ rw (n, handle) old
  | inr (c, (l, n)) ↦ rw (n, handle) (tell-IsCurrent e c (record s { changes = l }) old.0)
]
handle-IsCurrent e (ipv4_came ip) s kept old =
    if-IsCurrent e s.has_queries (ipv4_address_changed e ip s) s (ipv4-IsCurrent e ip s old) old
handle-IsCurrent e (ipv6_came ip) s kept old =
    if-IsCurrent e s.has_queries (ipv6_address_changed ip s) s (ipv6-IsCurrent e ip s old) old
handle-IsCurrent e ipv6_timer_expired s kept old =
    if-IsCurrent e (is_some s.ipv6_timer) (update_local_ip s) s (update_local_ip-IsCurrent e s old)
      old
handle-IsCurrent e lost_timer_expired s kept old =
    let s' = record s { lost_timers = s.lost_timers - 1 } in
    if-IsCurrent e (ltb 0 s.lost_timers) (update_local_ip s') s (update_local_ip-IsCurrent e s' old)
      old
handle-IsCurrent e (mode_written none) s kept old = old
handle-IsCurrent e (mode_written (some mode)) s kept old = old
handle-IsCurrent e (interface_written name) s kept old =
    SameUrl-IsCurrent e s (handle e (interface_written name) s) (interface-SameUrl e name s) old
handle-IsCurrent e (url_set update host port) s kept old = ground (arith, kept)
handle-IsCurrent e (port_set port) s kept old = update_conreq_port-IsCurrent e port s old
handle-IsCurrent e process_ended s kept old =
    SameUrl-IsCurrent e s (handle e process_ended s) (process-SameUrl e s) old
handle-IsCurrent e restart_timer_expired s kept old =
    let s' = record s { restart_timers = s.restart_timers - 1 } in
    if-IsCurrent e (ltb 0 s.restart_timers) (start_cwmpd e s') s
      (SameUrl-IsCurrent e s' (start_cwmpd e s') (start-SameUrl e s') old) old

-- The events of a run whose calls return the same throughout.
abbrev pub in_env : Env → List Event → List (Env × Event)
in_env e [] = []
in_env e (event ∷ events) = (e, event) ∷ in_env e events

run_events-IsCurrent :
    (e : Env) (events : List Event) (s : Plugin)
    → All (λ event. is_url_kept event ≡ true) events
    → IsCurrent e s
    → IsCurrent e (run_events (in_env e events) s)
unfolding run_events
run_events-IsCurrent e [] s kept old = old
run_events-IsCurrent e (event ∷ events) s kept old =
    run_events-IsCurrent e events (handle e event s) kept.1 (handle-IsCurrent e event s kept.0 old)

-- What the URL has in front of the path: the scheme, the host, which is in brackets if it is an IPv6
-- address, and the 16 bits of the port.
abbrev pub origin : Env → CString → ℕ → CString
origin e host port =
    codes "http://"
    ++ (if e.is_ipv6 host then codes "[" ++ host ++ codes "]" else host)
    ++ codes ":"
    ++ e.decimal (port % 2 ^ 16)

bracketed :
    (ipv6 : Bool) (a host : CString)
    → (a ++ (if ipv6 then codes "[" else []) ++ host ++ (if ipv6 then codes "]" else []))
      ≡ a ++ (if ipv6 then codes "[" ++ host ++ codes "]" else host)
bracketed true a host =
    ground (arith, append_assoc a (codes "[") host, append_assoc a (codes "[" ++ host) (codes "]"))
bracketed false a host = ground (arith, append-nil a, append-nil (a ++ host))

assemble_url-origin :
    (e : Env) (path host : CString) (port : ℕ)
    → assemble_url e path host port ≡ origin e host port ++ (codes "/" ++ path)
unfolding assemble_url
assemble_url-origin e path host port =
    ap (λ x. x ++ codes ":" ++ e.decimal (port % 2 ^ 16) ++ codes "/" ++ path)
      (bracketed (e.is_ipv6 host) (codes "http://") host)
    ∙ append_assoc (origin e host port) (codes "/") path

accepted :
    (server : Server.Env) (path : CString)
    → (server.has_get_uri && server.has_http) ≡ true
    → Server.validate_uri server (some path) (some (codes "/" ++ path)) ≡ true
unfolding Server.validate_uri
accepted server path get = ground (arith, get, streq_refl path)

-- The URL that the ACS is told is one that the daemon answers: from a state in which
-- UpdateConnRequestURL is set and the URL is that of the host, the port and the path, or a change of
-- one of them still has to be told, after any events but a call of updateConnectionRequestURL and
-- once all changes are told, the URL is http:// with the host, in brackets for IPv6, and the port,
-- followed by a URI, a slash and the path, and a GET request over HTTP for this URI passes the
-- server's test with the path of the data model.
pub announced-IsAccepted :
    (e : Env) (server : Server.Env) (events : List Event) (s : Plugin)
    → All (λ event. is_url_kept event ≡ true) events
    → IsCurrent e s
    → (server.has_get_uri && server.has_http) ≡ true
    → (run_events (in_env e events) s).changes ≡ []
    → let s' = run_events (in_env e events) s in
      (uri : CString) × (s'.url ≡ origin e s'.host s'.port ++ uri)
      × (uri ≡ codes "/" ++ s'.path)
      × (Server.validate_uri server (some s'.path) (some uri) ≡ true)
announced-IsAccepted e server events s kept old get told =
    let s' = run_events (in_env e events) s in
    let current = run_events-IsCurrent e events s kept old in
    elim current.1 [
      | inl waits ↦ ground (arith, waits, told)
      | inr same ↦ (
        codes "/" ++ s'.path,
        same ∙ assemble_url-origin e s'.path s'.host s'.port,
        refl,
        accepted server s'.path get,
      )
    ]
