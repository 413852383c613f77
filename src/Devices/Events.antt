-- ===== src/Devices/Events.antt =====
-- The calls and timers that reach cwmp_plugin/cwmp_plugin_manageable_device.c.
use tr069_manager.Base.{Option, none, List, [], ◌∷◌, if◌then◌else◌, is_some, CString}
use tr069_manager.Devices.Defs.{Info, Devices, Env}
use tr069_manager.Devices.Query.{
  start_matching, stop_matching, host_phys_changed, try_open_query, try_add_subscriptions,
}

pub data Event : Type 0 where
  started_matching : Option Info → Event
  stopped_matching : CString → Event
  phys_changed : CString → CString → Event
  gmap_timer_expired : Event
  host_timer_expired : Event

unfoldable pub handle : Env → Event → Devices → Devices
handle e (started_matching device) s = start_matching e device s
handle e (stopped_matching key) s = stop_matching e key s
handle e (phys_changed mac path) s = host_phys_changed mac path s
handle e gmap_timer_expired s =
    if is_some s.gmap_timer then try_open_query e (record s { gmap_timer = none }) else s
handle e host_timer_expired s =
    if is_some s.host_timer then try_add_subscriptions e (record s { host_timer = none }) else s

unfoldable pub run_events : List (Env × Event) → Devices → Devices
run_events [] s = s
run_events ((e, event) ∷ events) s = run_events events (handle e event s)

-- cwmp_plugin_manageabledevice_init, with gmap there
unfoldable pub devices_init : Env → Devices → Devices
devices_init e s = try_add_subscriptions e (record s { cache = [] })
