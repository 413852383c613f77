-- ===== src/Plugin/Interface.antt =====
-- cwmp_plugin/cwmp_plugin_intf_queries.c: the address of the WAN interface.
use mathlib.Core.Option
use tr069_manager.Base.{
  ◌+◌, ◌*◌, ◌%◌, ◌^◌, true, false, Option, none, some, [], if◌then◌else◌, is_some, CString, codes,
  streq, is_empty,
}
use tr069_manager.Plugin.Defs.{
  WanIpMode, ipv4_only, ipv6_preferred, ip_any, Plugin, Env, default_host,
}
use tr069_manager.Plugin.Url.{update_conreq_host}

-- getLocalIP
unfoldable pub get_local_ip : WanIpMode → CString → CString → CString
get_local_ip ipv4_only v4 v6 = if is_empty v4 then default_host else v4
get_local_ip ipv6_preferred v4 v6 =
    if is_empty v6 then (if is_empty v4 then default_host else v4) else v6
get_local_ip ip_any v4 v6 = if is_empty v4 then (if is_empty v6 then default_host else v6) else v4

-- updateLocalIP
unfoldable pub update_local_ip : Plugin → Plugin
update_local_ip s =
    update_conreq_host (get_local_ip s.mode s.ipv4 s.ipv6) (record s { ipv6_timer = none })

-- ipv6address_changed_cb
unfoldable pub ipv6_address_changed : Option CString → Plugin → Plugin
ipv6_address_changed ip s =
    let s' = record s { ipv6 = Option.get_or ip [] } in
    elim s.mode [ ipv4_only ↦ s' | _ ↦ update_local_ip s' ]

-- ipv4address_changed_cb
unfoldable pub ipv4_address_changed : Env → Option CString → Plugin → Plugin
ipv4_address_changed e ip s =
    let s' = record s { ipv4 = Option.get_or ip [] } in
    elim s.mode [
      | ipv6_preferred ↦
          if is_empty s.ipv6
          then record s' {
            ipv6_timer = some (e.max_wait_time * 1000 % 2 ^ 32);
            lost_timers = s.lost_timers + (if is_some s.ipv6_timer then 1 else 0);
          }
          else update_local_ip s'
      | _ ↦ update_local_ip s'
    ]

-- _writePreferredIPVersion
unfoldable pub write_preferred_ip_version : Option CString → Plugin → Plugin
write_preferred_ip_version none s = s
write_preferred_ip_version (some mode) s = record s {
  mode =
      if streq mode (codes "IPV4ONLY")
      then ipv4_only
      else if streq mode (codes "IPV6PREFERRED")
      then ipv6_preferred
      else ip_any;
}

-- cwmp_plugin_netmodel_close_queries
unfoldable pub close_queries : Plugin → Plugin
close_queries s = record s { has_queries = false; ipv6_timer = none; ipv4 = []; ipv6 = [] }

-- cwmp_plugin_netmodel_open_queries; libnetmodel makes the callbacks later.
unfoldable pub open_queries : Plugin → Plugin
open_queries s = record s { has_queries = true }

-- _writeInterface, with the new Interface, which the data model has by then
unfoldable pub write_interface : Option CString → Plugin → Plugin
write_interface none s = s
write_interface (some name) s = if is_empty name then s else open_queries (close_queries s)

-- cwmp_plugin_netmodel_find_ip
unfoldable pub find_ip : Plugin → Plugin
find_ip s = if is_empty s.interface then s else open_queries s
