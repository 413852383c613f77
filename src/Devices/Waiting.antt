-- ===== src/Devices/Waiting.antt =====
-- A device that waits for its host (cwmp_plugin/cwmp_plugin_manageable_device.c).
use tr069_manager.Base.{
  ◌+◌, ◌≡◌, refl, ap, ◌∙◌, inl, inr, true, false, none, some, List, [], ◌∷◌, ◌++◌, arith,
  Bool-cases, Option-cases, CString, codes, streq_refl, is_empty,
}
use tr069_manager.Devices.Defs.{Info, Devices, Env}
use tr069_manager.Devices.Query.{
  search_for_hosts, start_matching, has_text, take_cached, host_phys_changed,
}
use tr069_manager.Devices.Hosts.{is_unknown, created, add_unknown}

take_cached-last :
    (mac : CString) (l : List Info) (i : Info)
    → take_cached mac l ≡ none
    → has_text i.phys_address mac ≡ true
    → take_cached mac (l ++ i ∷ []) ≡ some (i, l)
unfolding take_cached
take_cached-last mac [] i absent here = ground (arith, here)
take_cached-last mac (x ∷ l) i absent here = elim (Bool-cases (has_text x.phys_address mac)) [
  | inl k ↦ ground (arith, k, absent)
  | inr k ↦ elim (Option-cases (take_cached mac l)) [
    | inl n ↦ ground (arith, k, n, take_cached-last mac l i n here)
    | inr ((j, l'), n) ↦ ground (arith, k, n, absent)
  ]
]

-- A device that matches before its host is there waits, and is added with the host when the host
-- gets the device's address, if no other device with this address waits, its identity is complete and
-- no instance has it; the devices that wait are as before.
pub waiting-added :
    (e : Env) (device : Info) (oui serial product mac path : CString) (s : Devices)
    → device.oui ≡ some oui
    → device.serial_number ≡ some serial
    → device.product_class ≡ some product
    → device.phys_address ≡ some mac
    → is_empty mac ≡ false
    → is_empty path ≡ false
    → is_unknown oui serial product s.devices ≡ true
    → search_for_hosts mac e.hosts ≡ []
    → take_cached mac s.cache ≡ none
    → host_phys_changed mac path (start_matching e (some device) s) ≡ record s {
      devices = s.devices ++ created s.next_index oui serial product (codes "Device." ++ path) ∷ [];
      next_index = s.next_index + 1;
    }
unfolding start_matching host_phys_changed
waiting-added e device oui serial product mac path s o n c m full full' unknown none_yet fresh =
    let i = record device { host = none } in
    let s' = record s { cache = s.cache ++ i ∷ [] } in
    let host = codes "Device." ++ path in
    let here : has_text i.phys_address mac ≡ true = ground (arith, m, streq_refl mac) in
    let found = take_cached-last mac s.cache i fresh here in
    let add = add_unknown i oui serial product host s' o n c unknown in
    let waits : start_matching e (some device) s ≡ s' = ground (arith, m, none_yet) in
    let taken : host_phys_changed mac path s' ≡ record s {
      devices = s.devices ++ created s.next_index oui serial product host ∷ [];
      next_index = s.next_index + 1;
    } =
      rw (full, full', found, add) refl in
    ap (host_phys_changed mac path) waits ∙ taken
