-- ===== src/Devices/Table.antt =====
-- cwmp_plugin/cwmp_plugin_manageable_device.c: the table of devices.
use tr069_manager.Base.{
  ◌+◌, not, ◌&&◌, Option, none, some, List, [], ◌∷◌, ◌++◌, if◌then◌else◌, CString, codes, streq,
  strstr, is_empty,
}
use tr069_manager.Devices.Defs.{Device, Info, Devices, Env, comma}

-- cwmp_plugin_add_manageable_host
unfoldable pub add_manageable_host : CString → Device → Device
add_manageable_host host d =
    if strstr d.hosts host then d else record d { hosts = d.hosts ++ host ++ comma }

-- The search for a device by its identity, with the host added to the one that is found.
unfoldable pub add_to_device :
    CString → CString → CString → CString → List Device → Option (List Device)
add_to_device oui serial product host [] = none
add_to_device oui serial product host (d ∷ l) =
    let rest = add_to_device oui serial product host l in
    if streq d.oui oui && (streq d.serial_number serial && streq d.product_class product)
    then some (add_manageable_host host d ∷ l)
    else elim rest [ none ↦ none | some l' ↦ some (d ∷ l') ]

-- cwmp_plugin_create_manageable_device
unfoldable pub create_manageable_device : CString → CString → CString → CString → Devices → Devices
create_manageable_device oui serial product host s = record s {
  devices =
      s.devices
      ++ record {
        index = s.next_index;
        oui = oui;
        serial_number = serial;
        product_class = product;
        hosts = host ++ comma;
      }
        ∷ [];
  next_index = s.next_index + 1;
}

infixl 1 ◌>>=◌
abbrev ◌>>=◌ {ℓ κ} : {A : Type ℓ} {B : Type κ} → Option A → (A → Option B) → Option B
none >>= f = none
some a >>= f = f a

-- The table with a device whose identity and host are known.
unfoldable pub add_known : CString → CString → CString → CString → Devices → Devices
add_known oui serial product host s = elim (add_to_device oui serial product host s.devices) [
  | none ↦ create_manageable_device oui serial product host s
  | some l ↦ record s { devices = l }
]

-- cwmp_plugin_add_manageable_device; `none` where it fails, with nothing changed.
unfoldable pub add_manageable_device : Info → Devices → Option Devices
add_manageable_device info s = do
  oui ← info.oui
  serial ← info.serial_number
  product ← info.product_class
  host ← info.host
  some (add_known oui serial product host s)

-- The loop of cwmp_plugin_update_manageable_device over the paths of a device.
unfoldable pub without_host : CString → List CString → CString
without_host host [] = []
without_host host (v ∷ l) =
    let rest = without_host host l in
    if not (is_empty v) && not (streq host v) then v ++ comma ++ rest else rest

-- cwmp_plugin_search_for_manageable_device and cwmp_plugin_update_manageable_device: the first
-- device with the host loses it, and goes where no host is left; `none` where there is no such
-- device.
unfoldable pub remove_host : Env → CString → List Device → Option (List Device)
remove_host e host [] = none
remove_host e host (d ∷ l) =
    let rest = remove_host e host l in
    let left = without_host host (e.split d.hosts) in
    if strstr d.hosts host
    then some (if strstr left (codes "Host") then record d { hosts = left } ∷ l else l)
    else elim rest [ none ↦ none | some l' ↦ some (d ∷ l') ]
