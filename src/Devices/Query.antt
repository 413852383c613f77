-- ===== src/Devices/Query.antt =====
-- cwmp_plugin/cwmp_plugin_manageable_device.c: the query of the devices, the hosts, the cache and the
-- retries.
use tr069_manager.Base.{
  ℕ, ◌*◌, Bool, true, false, ◌||◌, Option, none, some, List, [], ◌∷◌, ◌++◌, map, ltb, if◌then◌else◌,
  CString, codes, streq, to_lower, is_empty,
}
use tr069_manager.Devices.Defs.{Device, Info, Devices, Env}
use tr069_manager.Devices.Table.{add_manageable_device, remove_host}

-- strcasecmp(a, b) == 0
unfoldable pub strcaseeq : CString → CString → Bool
strcaseeq a b = streq (map to_lower a) (map to_lower b)

-- cwmp_plugin_search_for_hosts: the paths; it fails where there is none.
unfoldable pub search_for_hosts : CString → List (CString × CString) → List CString
search_for_hosts mac [] = []
search_for_hosts mac ((key, address) ∷ l) =
    let rest = search_for_hosts mac l in
    if strcaseeq address mac then (codes "Device." ++ key) ∷ rest else rest

abbrev pub blank_info : Info
blank_info = record {
  host = none;
  key = none;
  phys_address = none;
  oui = none;
  serial_number = none;
  product_class = none;
}

-- The loop of cwmp_plugin_manageable_query over the paths. The variant is cleaned after each one,
-- so that it is no table afterwards and takes no keys.
unfoldable pub add_hosts : Info → Bool → List CString → Devices → Devices
add_hosts device is_table [] s = s
add_hosts device is_table (path ∷ paths) s =
    let info = if is_table then record device { host = some path } else blank_info in
    elim (add_manageable_device info s) [ none ↦ s | some s' ↦ add_hosts device false paths s' ]

-- The paths of a device's hosts; a search with no address fails.
abbrev pub host_paths : Env → Option CString → List CString
host_paths e none = []
host_paths e (some mac) = search_for_hosts mac e.hosts

-- cwmp_plugin_manageable_query for a device that matches now; `none` is NULL or a table with no key,
-- from which cwmp_plugin_set_manageable_deviceinfo takes nothing.
unfoldable pub start_matching : Env → Option Info → Devices → Devices
start_matching e none s = s
start_matching e (some device) s =
    if is_empty (host_paths e device.phys_address)
    then record s { cache = s.cache ++ record device { host = none } ∷ [] }
    else add_hosts device true (host_paths e device.phys_address) s

abbrev pub has_text : Option CString → CString → Bool
has_text none value = false
has_text (some text) value = streq text value

-- cwmp_plugin_clean_manageable_device_cache
unfoldable pub clean_cache : CString → List Info → List Info
clean_cache key [] = []
clean_cache key (i ∷ l) = let rest = clean_cache key l in if has_text i.key key then l else i ∷ rest

-- The loop over the paths of a device that matches no more.
unfoldable pub remove_hosts : Env → List CString → List Device → List Device
remove_hosts e [] l = l
remove_hosts e (path ∷ paths) l = elim (remove_host e path l) [
  | none ↦ l
  | some l' ↦ remove_hosts e paths l'
]

-- cwmp_plugin_manageable_query for a device that matches no more
unfoldable pub stop_matching : Env → CString → Devices → Devices
stop_matching e key s = record s {
  cache = clean_cache key s.cache;
  devices = remove_hosts e (host_paths e (e.phys_address_of key)) s.devices;
}

-- cwmp_plugin_md_cache_find for a PhysAddress, with the cache without what it finds
unfoldable pub take_cached : CString → List Info → Option (Info × List Info)
take_cached mac [] = none
take_cached mac (i ∷ l) =
    let rest = take_cached mac l in
    if has_text i.phys_address mac
    then some (i, l)
    else elim rest [ none ↦ none | some (j, l') ↦ some (j, i ∷ l') ]

-- The new Host of the device that cwmp_plugin_md_cache_find finds.
unfoldable pub put_host : CString → CString → List Info → List Info
put_host mac host [] = []
put_host mac host (i ∷ l) =
    let rest = put_host mac host l in
    if has_text i.phys_address mac then record i { host = some host } ∷ l else i ∷ rest

-- cwmp_plugin_host_phys_changed, with the new address and the path of the host
unfoldable pub host_phys_changed : CString → CString → Devices → Devices
host_phys_changed mac path s =
    if is_empty mac || is_empty path then s else elim (take_cached mac s.cache) [
      | none ↦ s
      | some (i, l) ↦
          elim (add_manageable_device (record i { host = some (codes "Device." ++ path) }) s) [
            | none ↦ record s { cache = put_host mac (codes "Device." ++ path) s.cache }
            | some s' ↦ record s' { cache = l }
          ]
    ]

-- A retry's time after a failure.
unfoldable pub next_timeout : ℕ → ℕ
next_timeout t = if ltb t 20000 then t * 2 else t

-- cwmp_plugin_try_open_gmap_query
unfoldable pub try_open_query : Env → Devices → Devices
try_open_query e s =
    if s.has_query
    then s
    else if e.query_opens
    then record s { has_query = true }
    else record s { gmap_timer = some s.gmap_timeout; gmap_timeout = next_timeout s.gmap_timeout }

-- cwmp_plugin_try_add_manageabledevice_subscriptions
unfoldable pub try_add_subscriptions : Env → Devices → Devices
try_add_subscriptions e s =
    if e.subscribes
    then try_open_query e s
    else record s { host_timer = some s.host_timeout; host_timeout = next_timeout s.host_timeout }

-- cwmp_plugin_manageabledevice_clean
unfoldable pub devices_clean : Devices → Devices
devices_clean s = record s { has_query = false; cache = [] }
