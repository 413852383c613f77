-- ===== src/Plugin/Service.antt =====
-- cwmp_plugin/cwmp_plugin_service.c: the process of the daemon and the port in the firewall.
use tr069_manager.Base.{◌+◌, none, some, if◌then◌else◌, is_some}
use tr069_manager.Plugin.Defs.{
  set_service, delete_service, start_process, stop_process, Plugin, Env, perform,
}

-- open_cwmpd_listening_port
unfoldable pub open_listening_port : Env → Plugin → Plugin
open_listening_port e s =
    perform
      (set_service s.port s.interface s.allowed_address (if e.is_ipv6 s.local_ip then 6 else 4)) s

-- close_cwmpd_listening_port
unfoldable pub close_listening_port : Plugin → Plugin
close_listening_port s = if is_some s.process then perform delete_service s else s

-- start_cwmpd
unfoldable pub start_cwmpd : Env → Plugin → Plugin
start_cwmpd e s =
    if e.is_standalone
    then open_listening_port e s
    else if is_some s.process
    then s
    else open_listening_port e (perform start_process (record s { process = some e.start_works }))

-- stop_cwmpd
unfoldable pub stop_cwmpd : Env → Plugin → Plugin
stop_cwmpd e s =
    if e.is_standalone
    then close_listening_port s
    else if is_some s.process
    then record (perform stop_process s) { process = none }
    else s

-- cwmpd_proc_stopped, with the timer of ten seconds
unfoldable pub process_stopped : Plugin → Plugin
process_stopped s =
    let s' = close_listening_port (record s { process = none }) in
    record s' { restart_timers = s'.restart_timers + 1 }
