-- ===== src/AcsTransfers/Status.antt =====
-- cwmp_plugin/cwmp_plugin_transfer.c: the writes to an instance, with the fault strings of
-- cwmp_plugin/cwmp_plugin_common.c.
use mathlib.Core.Option
use tr069_manager.Base.{
  ℕ, ◌-◌, ◌&&◌, Option, none, some, List, [], ◌∷◌, ltb, leb, ◌==◌, if◌then◌else◌, CString, codes,
  get_elem?,
}
use tr069_manager.AcsTransfers.Defs.{
  Time, zero_time, Status, AcsTransfer, update, World, perform, put_transfer,
}

abbrev pub fault_messages : List CString
fault_messages =
    codes "Method not supported"
    ∷ codes "Request denied (no reason specified)"
    ∷ codes "Internal error"
    ∷ codes "Invalid arguments"
    ∷ codes "Resources exceeded"
    ∷ codes "Invalid parameter name"
    ∷ codes "Invalid parameter type"
    ∷ codes "Invalid parameter value"
    ∷ codes "Attempt to set a non-writable parameter"
    ∷ codes "Notification request rejected"
    ∷ codes "Download failure"
    ∷ codes "Upload failure"
    ∷ codes "File transfer server authentication failure"
    ∷ codes "Unsupported protocol for file transfer"
    ∷ codes "Download failure: unable to join multicast group"
    ∷ codes "Download failure: unable to contact file server"
    ∷ codes "Download failure: unable to access file"
    ∷ codes "Download failure: unable to complete download"
    ∷ codes "Download failure: file corrupted"
    ∷ codes "Download failure: file authentication failure"
    ∷ codes "Vendor specific fault"
    ∷ []

-- cwmp_plugin_getFaultString, for a code that is not negative.
unfoldable pub get_fault_string : ℕ → Option CString
get_fault_string code =
    if ltb code 9000
    then none
    else if ltb (code - 9000) 20
    then get_elem? fault_messages (code - 9000)
    else if leb 800 (code - 9000) && leb (code - 9000) 899
    then get_elem? fault_messages 20
    else none

-- transfer_update_status, for the path of an index. Its callers write Finished only.
unfoldable pub transfer_update_status :
    ℕ → Status → Time → Time → ℕ → Option CString → World → World
transfer_update_status i status start complete code text w = elim (w.transfers i) [
  | none ↦ w
  | some t ↦ perform (update i status) (
      put_transfer i
        (record t {
          status = status;
          start_time = start;
          complete_time = if code == 0 then complete else zero_time;
          fault_code = code;
          fault_string = text;
        })
        w)
]

unfoldable pub set_fault : Option ℕ → AcsTransfer → AcsTransfer
set_fault none t = t
set_fault (some code) t = record t { fault_code = code; fault_string = get_fault_string code }

-- update_transfer_obj; no call of it gives a start time or leaves out the status.
unfoldable pub update_transfer_obj : ℕ → Status → Option Time → Option ℕ → World → World
unfolding set_fault
update_transfer_obj i status complete code w = elim (w.transfers i) [
  | none ↦ w
  | some t ↦
      let t' = record t {
        status = status;
        complete_time = Option.get_or complete t.complete_time;
      } in
      perform (update i status) (put_transfer i (set_fault code t') w)
]
