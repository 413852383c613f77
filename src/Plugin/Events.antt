-- ===== src/Plugin/Events.antt =====
-- The events that reach the plugin: those of the data model, of the interface, of the process and
-- of the timers, with deferred_init_timer_cb of cwmp_plugin/cwmp_plugin.c.
use tr069_manager.Base.{
  ℕ, ◌-◌, Bool, true, false, ◌||◌, Option, none, some, List, [], ◌∷◌, ltb, if◌then◌else◌, is_some,
  CString, is_empty,
}
use tr069_manager.Plugin.Defs.{
  Change, host_changed, path_changed, port_changed, send_inform, Plugin, Env, perform,
}
use tr069_manager.Plugin.Service.{start_cwmpd, stop_cwmpd, process_stopped}
use tr069_manager.Plugin.Url.{
  update_conreq_port, management_update_url, path_event, port_event, host_event,
}
use tr069_manager.Plugin.Interface.{
  update_local_ip, ipv6_address_changed, ipv4_address_changed, write_preferred_ip_version,
  close_queries, write_interface, find_ip,
}

pub data Event : Type 0 where
  init_timer_expired : Event
  change_told : Event  -- the first event of the data model that waits
  ipv4_came : Option CString → Event
  ipv6_came : Option CString → Event
  ipv6_timer_expired : Event
  lost_timer_expired : Event
  mode_written : Option CString → Event
  interface_written : CString → Event
  port_set : ℕ → Event  -- cwmp_plugin_update_conreq_port
  url_set : Bool → Option CString → ℕ → Event  -- updateConnectionRequestURL
  process_ended : Event
  restart_timer_expired : Event

-- deferred_init_timer_cb
unfoldable pub deferred_init : Env → Plugin → Plugin
deferred_init e s =
    let s' = find_ip (record s { init_done = true }) in
    if s.start_avoided then start_cwmpd e s' else s'

-- sendInformMessage of ManagementServer; true for amxd_status_ok.
unfoldable pub send_inform_message : Option CString → Option CString → Plugin → Plugin × Bool
send_inform_message none source s = (s, false)
send_inform_message (some events) none s = (s, false)
send_inform_message (some events) (some source) s =
    if is_empty events || is_empty source
    then (s, false)
    else (perform (send_inform events source) s, true)

-- The part of cwmp_plugin_exit for the daemon and the interface.
unfoldable pub plugin_exit : Env → Plugin → Plugin
plugin_exit e s = close_queries (stop_cwmpd e s)

unfoldable pub tell : Env → Change → Plugin → Plugin
tell e host_changed s = host_event e s
tell e path_changed s = path_event e s
tell e port_changed s = port_event e s

unfoldable pub handle : Env → Event → Plugin → Plugin
handle e init_timer_expired s = deferred_init e s
handle e change_told s = elim s.changes [ [] ↦ s | c ∷ l ↦ tell e c (record s { changes = l }) ]
handle e (ipv4_came ip) s = if s.has_queries then ipv4_address_changed e ip s else s
handle e (ipv6_came ip) s = if s.has_queries then ipv6_address_changed ip s else s
handle e ipv6_timer_expired s = if is_some s.ipv6_timer then update_local_ip s else s
handle e lost_timer_expired s =
    if ltb 0 s.lost_timers
    then update_local_ip (record s { lost_timers = s.lost_timers - 1 })
    else s
handle e (mode_written mode) s = write_preferred_ip_version mode s
handle e (interface_written name) s = write_interface (some name) (record s { interface = name })
handle e (port_set port) s = update_conreq_port port s
handle e (url_set update host port) s = (management_update_url e update host port s).0
handle e process_ended s = if is_some s.process then process_stopped s else s
handle e restart_timer_expired s =
    if ltb 0 s.restart_timers
    then start_cwmpd e (record s { restart_timers = s.restart_timers - 1 })
    else s

unfoldable pub run_events : List (Env × Event) → Plugin → Plugin
run_events [] s = s
run_events ((e, event) ∷ events) s = run_events events (handle e event s)
