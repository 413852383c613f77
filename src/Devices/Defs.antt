-- ===== src/Devices/Defs.antt =====
-- The state of cwmp_plugin/cwmp_plugin_manageable_device.c and what its functions see.
use tr069_manager.Base.{ℕ, Bool, Option, List, CString, codes}

-- An instance of ManagementServer.ManageableDevice. Host is a text of paths with a comma behind each.
pub record Device : Type 0 where
  pub index : ℕ
  pub oui : CString
  pub serial_number : CString
  pub product_class : CString
  pub hosts : CString

-- The information on a device: md_cache_context_t, and the variant of the query. A text is `none`
-- where it is missing.
pub record Info : Type 0 where
  pub host : Option CString
  pub key : Option CString
  pub phys_address : Option CString
  pub oui : Option CString
  pub serial_number : Option CString
  pub product_class : Option CString

-- The instances, the index of the next one, md_requests, and the times of the two retry timers.
pub record Devices : Type 0 where
  pub devices : List Device
  pub next_index : ℕ
  pub cache : List Info
  pub gmap_timeout : ℕ
  pub host_timeout : ℕ
  pub has_query : Bool
  pub gmap_timer : Option ℕ
  pub host_timer : Option ℕ

-- What the calls return in one run of a function.
pub record Env : Type 0 where
  pub split : CString → List CString  -- amxc_string_split_to_llist at commas
  pub hosts : List (CString × CString)  -- Hosts.Host: the path and the PhysAddress
  pub phys_address_of : CString → Option CString  -- the PhysAddress of a key in Devices.Device
  pub query_opens : Bool  -- gmap_query_open
  pub subscribes : Bool  -- cwmp_plugin_add_subscription

abbrev pub comma : CString
comma = codes ","
