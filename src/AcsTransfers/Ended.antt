-- ===== src/AcsTransfers/Ended.antt =====
-- The ends of the uploads (cwmp_plugin/cwmp_plugin_transfer.c).
use tr069_manager.Base.{
  ℕ, ◌≡◌, inl, inr, true, false, none, some, List, [], ◌∷◌, ◌++◌, arith, ◌==◌, if◌then◌else◌,
  Bool-cases, Option-cases, CString, codes, streq, streq_refl, strstr, is_empty,
}
use tr069_manager.AcsTransfers.Defs.{
  zero_time, at, finished, AcsTransfer, Args, UploadContext, Completion, VendorFile, World, Env,
  put_transfer,
}
use tr069_manager.AcsTransfers.Status.{transfer_update_status}
use tr069_manager.AcsTransfers.Upload.{
  upload_find, upload_complete_notification, vendor_args, call_vendor, prepare_type, upload_prepare,
  upload_start,
}
use tr069_manager.AcsTransfers.Download.{request_prepare}
use tr069_manager.AcsTransfers.Events.{
  pick, add_transfer, upload_timer_expired, with_picked, handle, run_events,
}

find-last :
    (url : CString) (l : List UploadContext) (u : UploadContext)
    → upload_find url l ≡ none
    → streq u.url url ≡ true
    → upload_find url (l ++ u ∷ []) ≡ some (u, l)
unfolding upload_find
find-last url [] u absent same = ground (arith, same)
find-last url (v ∷ l) u absent same = elim (Bool-cases (streq v.url url)) [
  | inl s ↦ ground (arith, s, absent)
  | inr s ↦ elim (Option-cases (upload_find url l)) [
    | inl k ↦ ground (arith, s, k, find-last url l u k same)
    | inr (p, k) ↦ ground (arith, s, k, absent)
  ]
]

-- The instance of an upload that ended.
abbrev pub uploaded : ℕ → ℕ → Completion → AcsTransfer → AcsTransfer
uploaded start end c t = record t {
  status = finished;
  start_time = at start;
  complete_time = if c.fault_code == 0 then at end else zero_time;
  fault_code = c.fault_code;
  fault_string = c.fault_string;
}

-- An upload whose call on the vendor file succeeds is ended by the notification for its URL, if no
-- earlier upload to this URL is on the way: its instance is Finished with the time of the call, the
-- fault of the notification, and as the end the time of the notification or, with a fault, the zero
-- time; the list of the uploads is as before the call.
pub call-completed :
    (e e' : Env) (file : VendorFile) (args : Args) (c : Completion) (index : ℕ)
    (url username password : CString) (t : AcsTransfer) (w : World)
    → vendor_args e args ≡ some (index, (url, (username, password)))
    → e.vendor_call_fails ≡ false
    → w.transfers args.index ≡ some t
    → upload_find url w.upload_requests ≡ none
    → c.transfer_url ≡ some url
    → is_empty url ≡ false
    → let w' = upload_complete_notification e' c (call_vendor e file args w).0 in
      (w'.transfers args.index ≡ some (uploaded e.now e'.now c t))
      × (w'.upload_requests ≡ w.upload_requests)
unfolding upload_complete_notification call_vendor transfer_update_status put_transfer
call-completed e e' file args c index url username password t w given ok here absent same full =
    let u : UploadContext = record { index = args.index; url = url; time = e.now } in
    let last = find-last url w.upload_requests u absent (streq_refl url) in
    (
      ground (arith, given, ok, here, same, full, last),
      ground (arith, given, ok, here, same, full, last),
    )

-- An upload of a type that no branch names leaves no trace: AddTransfer succeeds, and when its timer
-- has fired, with no other upload before it, the state is the one before.
pub upload-dropped :
    (e e' : Env) (args : Args) (type : CString) (w : World)
    → args.is_download ≡ false
    → args.file_type ≡ some type
    → strstr type (codes "2 Vendor Log File") ≡ false
    → strstr type (codes "4 Vendor Log File") ≡ false
    → strstr type (codes "4 Vendor Log File 1") ≡ false
    → strstr type (codes "1 Vendor Configuration File") ≡ false
    → strstr type (codes "3 Vendor Configuration File") ≡ false
    → w.upload_timers ≡ []
    → (request_prepare e args w).1 ≡ true
      × run_events ((e, add_transfer args) ∷ (e', upload_timer_expired 0) ∷ []) w ≡ w
unfolding run_events handle request_prepare upload_start with_picked pick upload_prepare
    prepare_type
upload-dropped e e' args type w up typed a b c d f quiet =
    (ground (arith, up), ground (arith, up, typed, a, b, c, d, f, quiet))
