-- ===== src/Devices/Examples.antt =====
-- Runs of the manageable devices, and their theorems at concrete states.
use tr069_manager.Base.{
  ◌≡◌, refl, true, false, none, some, List, [], ◌∷◌, codes, streq, to_lower, strstr,
}
use tr069_manager.Devices.Defs.{Info, Devices, Env}
use tr069_manager.Devices.Table.{
  add_to_device, create_manageable_device, add_known, add_manageable_device, without_host,
  remove_host,
}
use tr069_manager.Devices.Query.{
  strcaseeq, search_for_hosts, add_hosts, start_matching, stop_matching, take_cached,
  host_phys_changed,
}
use tr069_manager.Devices.Events.{Event, host_timer_expired}
use tr069_manager.Devices.Hosts.{further_hosts-lost, created, start-stop}
use tr069_manager.Devices.Waiting.{waiting-added}

-- The device has two hosts.
abbrev env : Env
env = record {
  split = λ text. codes "Device.Hosts.Host.1." ∷ [] ∷ [];
  hosts =
      (codes "Hosts.Host.1.", codes "AA")
      ∷ (codes "Hosts.Host.2.", codes "BB")
      ∷ (codes "Hosts.Host.3.", codes "bb")
      ∷ [];
  phys_address_of = λ key. some (codes "aa");
  query_opens = false;
  subscribes = false;
}

abbrev device : Info
device = record {
  host = none;
  key = some (codes "k");
  phys_address = some (codes "aa");
  oui = some (codes "00D09E");
  serial_number = some (codes "s");
  product_class = some (codes "c");
}

abbrev two_hosts : Info
two_hosts = record device { phys_address = some (codes "bb") }

abbrev start : Devices
start = record {
  devices = [];
  next_index = 1;
  cache = [];
  gmap_timeout = 1000;
  host_timeout = 1000;
  has_query = false;
  gmap_timer = none;
  host_timer = none;
}

two_hosts_test :
    (start_matching env (some two_hosts) start).devices
    ≡ created 1 (codes "00D09E") (codes "s") (codes "c") (codes "Device.Hosts.Host.2.") ∷ []
unfolding start_matching search_for_hosts strcaseeq to_lower streq add_hosts add_manageable_device
    add_known add_to_device create_manageable_device
two_hosts_test = refl

further_hosts-lost_example :
    start_matching env (some two_hosts) start
    ≡ add_hosts two_hosts true (codes "Device.Hosts.Host.2." ∷ []) start
unfolding search_for_hosts strcaseeq to_lower streq
further_hosts-lost_example =
    further_hosts-lost env two_hosts (codes "Device.Hosts.Host.2.")
      (codes "Device.Hosts.Host.3." ∷ []) start refl

start-stop_example :
    (stop_matching env (codes "k") (start_matching env (some device) start)).devices ≡ []
unfolding search_for_hosts strcaseeq to_lower streq remove_host without_host strstr
start-stop_example =
    start-stop env device (codes "00D09E") (codes "s") (codes "c") (codes "k")
      (codes "Device.Hosts.Host.1.") start refl refl refl refl refl refl refl refl

abbrev new_device : Info
new_device = record device { phys_address = some (codes "cc") }

waiting-added_example :
    host_phys_changed
      (codes "cc")
      (codes "Hosts.Host.4.")
      (start_matching env (some new_device) start)
    ≡ record start {
      devices =
          created 1 (codes "00D09E") (codes "s") (codes "c") (codes "Device.Hosts.Host.4.") ∷ [];
      next_index = 2;
    }
unfolding search_for_hosts strcaseeq to_lower streq take_cached
waiting-added_example =
    waiting-added env new_device (codes "00D09E") (codes "s") (codes "c") (codes "cc")
      (codes "Hosts.Host.4.") start refl refl refl refl refl refl refl refl refl

-- The subscription fails twice.
abbrev events : List (Env × Event)
events = (env, host_timer_expired) ∷ (env, host_timer_expired) ∷ []
