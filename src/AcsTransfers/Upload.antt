-- ===== src/AcsTransfers/Upload.antt =====
-- cwmp_plugin/cwmp_plugin_transfer.c: the uploads.
use tr069_manager.Base.{
  ℕ, ◌*◌, ◌%◌, ◌^◌, Bool, true, false, ◌||◌, Option, none, some, List, [], ◌∷◌, ◌++◌, ◌==◌,
  if◌then◌else◌, CString, codes, streq, strstr, atoi, get_elem?, is_empty,
}
use tr069_manager.AcsTransfers.Defs.{
  Time, unknown_time, at, finished, Args, UploadContext, Completion, VendorFile, log_file,
  config_file, call_vendor_file, self_test, World, Env, fault_internal_error, perform,
}
use tr069_manager.AcsTransfers.Status.{transfer_update_status}

-- The ninth piece of a text, which holds the number of the instance.
numeric_index : Env → Option CString → ℕ
numeric_index e none = 0
numeric_index e (some word) = if e.is_numeric word then atoi word else 0

-- vendorfile_get_index; the result is the word of the int.
unfoldable pub vendorfile_get_index : Env → CString → ℕ
unfolding numeric_index
vendorfile_get_index e type =
    if is_empty type
    then 0
    else if strstr type (codes "2 Vendor Log File")
        || (strstr type (codes "4 Vendor Log File 1")
            || (strstr type (codes "1 Vendor Configuration File")
                || strstr type (codes "3 Vendor Configuration File 1")))
    then 1
    else if strstr type (codes "3 Vendor Configuration File")
        || strstr type (codes "4 Vendor Log File")
    then numeric_index e (get_elem? (e.split_word type) 8)
    else 0

-- filetransfer_upload_find, with the list without the context that is found.
unfoldable pub upload_find :
    CString → List UploadContext → Option (UploadContext × List UploadContext)
upload_find url [] = none
upload_find url (u ∷ l) =
    let rest = upload_find url l in
    if streq u.url url
    then some (u, l)
    else elim rest [ none ↦ none | some (v, l') ↦ some (v, u ∷ l') ]

-- filetransfer_upload_complete_notification, with data
unfoldable pub upload_complete_notification : Env → Completion → World → World
upload_complete_notification e c w = elim c.transfer_url [
  | none ↦ w
  | some url ↦ if is_empty url then w else elim (upload_find url w.upload_requests) [
    | none ↦ w
    | some (u, l) ↦
        record (transfer_update_status u.index finished (at u.time) (at e.now) c.fault_code
          c.fault_string w) { upload_requests = l }
  ]
]

infixl 1 ◌>>=◌
abbrev ◌>>=◌ {ℓ κ} : {A : Type ℓ} {B : Type κ} → Option A → (A → Option B) → Option B
none >>= f = none
some a >>= f = f a

-- The mandatory arguments of the call on a vendor file, in the order of their tests: the instance,
-- the URL, the user and the password.
unfoldable pub vendor_args : Env → Args → Option (ℕ × (CString × (CString × CString)))
vendor_args e args = do
  type ← args.file_type
  index ← (let i = vendorfile_get_index e type in if i == 0 then none else some i)
  url ← (elim args.url [ none ↦ none | some u ↦ if is_empty u then none else some u ])
  username ← args.username
  password ← args.password
  some (index, (url, (username, password)))

-- The call on a vendor file and the context of the upload; true where it is done.
unfoldable pub call_vendor : Env → VendorFile → Args → World → World × Bool
call_vendor e file args w = elim (vendor_args e args) [
  | none ↦ (w, false)
  | some (index, (url, (username, password))) ↦
      let w' = perform (call_vendor_file file index url username password) w in
      if e.vendor_call_fails then (w', false) else (
        record w' {
          upload_requests =
              w.upload_requests ++ record { index = args.index; url = url; time = e.now } ∷ [];
        },
        true,
      )
]

abbrev pub internal_error : Option CString
internal_error = some (codes "Internal error")

-- What is written where an upload cannot start. The start time is the first argument.
unfoldable pub fail_unless : Time → ℕ → World × Bool → World
fail_unless time i (w, true) = w
fail_unless time i (w, false) =
    transfer_update_status i finished time time fault_internal_error internal_error w

-- filetransfer_upload_selftest_call_done; the request is off its list before, where there is one.
unfoldable pub selftest_call_done : Env → ℕ → Args → World → World
selftest_call_done e status args w =
    if args.index == 0
    then w
    else fail_unless (at e.now) args.index
        (if status == 0 then call_vendor e log_file args w else (w, false))

unfoldable pub upload_vendor_config_file : Env → Args → World → World
upload_vendor_config_file e args w =
    if args.index == 0
    then w
    else fail_unless unknown_time args.index (call_vendor e config_file args w)

-- The branch of filetransfer_upload_prepare on a file type.
unfoldable pub prepare_type : Env → CString → Args → World → World
prepare_type e type args w =
    if strstr type (codes "2 Vendor Log File") || strstr type (codes "4 Vendor Log File 1")
    then if e.self_test_refused
      then perform self_test w
      else record (perform self_test w) { selftest_requests = w.selftest_requests ++ args ∷ [] }
    else if strstr type (codes "4 Vendor Log File")
    then selftest_call_done e 0 args w
    else if strstr type (codes "1 Vendor Configuration File")
        || strstr type (codes "3 Vendor Configuration File")
    then upload_vendor_config_file e args w
    else w

-- filetransfer_upload_prepare
unfoldable pub upload_prepare : Env → Args → World → World
upload_prepare e args w =
    if e.has_device
    then elim args.file_type [
      | none ↦ w
      | some type ↦ if is_empty type then w else prepare_type e type args w
    ]
    else w

-- filetransfer_upload_start: the time of the timer is an unsigned int.
unfoldable pub upload_start : Args → World → World
upload_start args w = record w {
  upload_timers = w.upload_timers ++ (args, args.delay_seconds * 1000 % 2 ^ 32) ∷ [];
}
