-- ===== src/Devices/Hosts.antt =====
-- A device with its hosts in the table (cwmp_plugin/cwmp_plugin_manageable_device.c).
use tr069_manager.Base.{
  ℕ, ◌+◌, ◌≡◌, refl, ap, ◌∙◌, inl, inr, Bool, true, false, not, ◌&&◌, none, some, List, [], ◌∷◌,
  ◌++◌, arith, Bool-cases, Option-cases, CString, codes, streq, strstr, strstr-append,
}
use tr069_manager.Devices.Defs.{Device, Info, Devices, Env, comma}
use tr069_manager.Devices.Table.{
  add_to_device, create_manageable_device, add_known, add_manageable_device, without_host,
  remove_host,
}
use tr069_manager.Devices.Query.{add_hosts, host_paths, start_matching, remove_hosts, stop_matching}

-- What is left of the information once it was cleaned adds nothing.
blank-ignored :
    (device : Info) (paths : List CString) (s : Devices) → add_hosts device false paths s ≡ s
unfolding add_hosts add_manageable_device
blank-ignored device [] s = refl
blank-ignored device (p ∷ paths) s = refl

-- A device with several hosts gets the first of them only, since the information on it is lost with
-- the first: it ends in the same state as with that host alone.
pub further_hosts-lost :
    (e : Env) (device : Info) (path : CString) (paths : List CString) (s : Devices)
    → host_paths e device.phys_address ≡ path ∷ paths
    → start_matching e (some device) s ≡ add_hosts device true (path ∷ []) s
unfolding start_matching add_hosts
further_hosts-lost e device path paths s found =
    elim (Option-cases (add_manageable_device (record device { host = some path }) s)) [
      | inl n ↦ ground (arith, found, n)
      | inr (s', n) ↦ ground (arith, found, n, blank-ignored device paths s')
    ]

remove_host-last :
    (e : Env) (host : CString) (l : List Device) (d : Device)
    → remove_host e host l ≡ none
    → strstr d.hosts host ≡ true
    → strstr (without_host host (e.split d.hosts)) (codes "Host") ≡ false
    → remove_host e host (l ++ d ∷ []) ≡ some l
unfolding remove_host
remove_host-last e host [] d absent here alone = ground (arith, here, alone)
remove_host-last e host (x ∷ l) d absent here alone = elim (Bool-cases (strstr x.hosts host)) [
  | inl k ↦ ground (arith, k, absent)
  | inr k ↦ elim (Option-cases (remove_host e host l)) [
    | inl n ↦ ground (arith, k, n, remove_host-last e host l d n here alone)
    | inr (l', n) ↦ ground (arith, k, n, absent)
  ]
]

-- The identity of a device is in no instance.
abbrev pub is_unknown : CString → CString → CString → List Device → Bool
is_unknown oui serial product [] = true
is_unknown oui serial product (d ∷ l) =
    not (streq d.oui oui && (streq d.serial_number serial && streq d.product_class product))
    && is_unknown oui serial product l

unknown-none :
    (oui serial product host : CString) (l : List Device)
    → is_unknown oui serial product l ≡ true
    → add_to_device oui serial product host l ≡ none
unfolding add_to_device
unknown-none oui serial product host [] unknown = refl
unknown-none oui serial product host (d ∷ l) unknown =
    ground (arith, unknown, unknown-none oui serial product host l)

-- The instance that is made for a device.
abbrev pub created : ℕ → CString → CString → CString → CString → Device
created index oui serial product host = record {
  index = index;
  oui = oui;
  serial_number = serial;
  product_class = product;
  hosts = host ++ comma;
}

pub add_unknown :
    (device : Info) (oui serial product host : CString) (s : Devices)
    → device.oui ≡ some oui
    → device.serial_number ≡ some serial
    → device.product_class ≡ some product
    → is_unknown oui serial product s.devices ≡ true
    → add_manageable_device (record device { host = some host }) s
      ≡ some (record s {
        devices = s.devices ++ created s.next_index oui serial product host ∷ [];
        next_index = s.next_index + 1;
      })
unfolding add_manageable_device create_manageable_device add_known
add_unknown device oui serial product host s o n c unknown =
    ground (arith, o, n, c, unknown-none oui serial product host s.devices unknown)

-- A device with one host that starts to match and then matches no more leaves the table as it was:
-- its identity is new, no instance has its host, the pieces of its text without the host and empty
-- ones hold no Host, and its address is the same at the end.
pub start-stop :
    (e : Env) (device : Info) (oui serial product key host : CString) (s : Devices)
    → device.oui ≡ some oui
    → device.serial_number ≡ some serial
    → device.product_class ≡ some product
    → is_unknown oui serial product s.devices ≡ true
    → host_paths e device.phys_address ≡ host ∷ []
    → host_paths e (e.phys_address_of key) ≡ host ∷ []
    → remove_host e host s.devices ≡ none
    → strstr (without_host host (e.split (host ++ comma))) (codes "Host") ≡ false
    → (stop_matching e key (start_matching e (some device) s)).devices ≡ s.devices
unfolding stop_matching remove_hosts add_hosts
start-stop e device oui serial product key host s o n c unknown found later absent alone =
    let d = created s.next_index oui serial product host in
    let add = add_unknown device oui serial product host s o n c unknown in
    let here : strstr d.hosts host ≡ true = strstr-append [] host comma in
    let last = remove_host-last e host s.devices d absent here alone in
    let s' = record s { devices = s.devices ++ d ∷ []; next_index = s.next_index + 1 } in
    let one : add_hosts device true (host ∷ []) s ≡ s' = ground (arith, add) in
    let start = further_hosts-lost e device host [] s found ∙ one in
    let stop : remove_hosts e (host ∷ []) s'.devices ≡ s.devices = ground (arith, last) in
    ap (λ x. (stop_matching e key x).devices) start
    ∙ ap (λ paths. remove_hosts e paths s'.devices) later
    ∙ stop
