-- ===== src/AcsTransfers/Prefix.antt =====
-- The file types that are told by a part of their text, and the delays that do not fit
-- (cwmp_plugin/cwmp_plugin_transfer.c).
use tr069_manager.Base.{
  ℕ, ◌*◌, ◌%◌, ◌^◌, ◌≤◌, ◌≡◌, refl, ap, ◌∙◌, ◌↔◌, inl, inr, true, false, some, List, [], ◌∷◌, ◌++◌,
  map, append_assoc, arith, Bool-cases, Option-cases, CString, codes, strstr, strstr-append,
  is_empty,
}
use tr069_manager.AcsTransfers.Defs.{
  finished, AcsTransfer, Args, Request, Result, config_file, update, call_vendor_file, run_task,
  World, Env, put_transfer,
}
use tr069_manager.AcsTransfers.Upload.{vendorfile_get_index, vendor_args, call_vendor, upload_start}
use tr069_manager.AcsTransfers.Download.{
  script_of, request_cb, new_request, set_target_file, start_request, is_firmware, request_prepare,
}
use tr069_manager.AcsTransfers.Files.{request_cb-runs}
use tr069_manager.AcsTransfers.Events.{add_transfer, handle}

strstr-suffix : (a b c : CString) → strstr b c ≡ true → strstr (a ++ b) c ≡ true
unfolding strstr
strstr-suffix [] b c found = found
strstr-suffix (x ∷ a) b c found = ground (arith, strstr-suffix a b c found)

config_1-index :
    (e : Env) (s : CString)
    → vendorfile_get_index e (codes "3 Vendor Configuration File 1" ++ s) ≡ 1
unfolding vendorfile_get_index
config_1-index e s =
    let type = codes "3 Vendor Configuration File 1" in
    let found = strstr-append [] type s in ground (arith, found)

-- An upload of the vendor configuration file of any instance whose number begins with 1, such as 12,
-- calls for the backup of instance 1, whatever the number.
pub backup-first :
    (e : Env) (args : Args) (s url username password : CString) (w : World)
    → args.file_type ≡ some (codes "3 Vendor Configuration File 1" ++ s)
    → args.url ≡ some url
    → is_empty url ≡ false
    → args.username ≡ some username
    → args.password ≡ some password
    → (call_vendor e config_file args w).0.log
      ≡ w.log ++ call_vendor_file config_file 1 url username password ∷ []
unfolding call_vendor vendor_args
backup-first e args s url username password w typed to full user pass =
    ground (arith, typed, to, full, user, pass, config_1-index e s)

-- After the download of a vendor configuration file whose type has a 2 behind its name, such as that
-- of instance 2, the script for web content is run on it, not the one for configurations.
pub config_2-web_content :
    (r : Result) (req : Request) (s : CString) (t : AcsTransfer) (w : World)
    → w.transfers req.index ≡ some t
    → t.file_type ≡ codes "3 Vendor Configuration File" ++ s
    → strstr s (codes "2") ≡ true
    → r.error_code ≡ 0
    → (request_cb r req w).log
      ≡ (w.log ++ run_task (codes "tr069_2_webcontent") t.save_file_name ∷ [])
        ++ update req.index finished ∷ []
unfolding script_of
config_2-web_content r req s t w here typed two ok =
    let found = strstr-suffix (codes "3 Vendor Configuration File") s (codes "2") two in
    let script : script_of t.file_type ≡ some (codes "tr069_2_webcontent") =
      ground (arith, typed, found) in
    let runs = request_cb-runs r req t (codes "tr069_2_webcontent") w here script in
    ground (
      arith,
      runs.0,
      ok,
      append_assoc w.log (run_task (codes "tr069_2_webcontent") t.save_file_name ∷ [])
          (update req.index finished ∷ []),
    )

set_target_file-timers :
    (e : Env) (args : Args) (req : Request) (w : World)
    → ((set_target_file e args req w).0.upload_timers ≡ w.upload_timers)
      × ((set_target_file e args req w).0.start_timers ≡ w.start_timers)
unfolding set_target_file put_transfer
set_target_file-timers e args req w = elim (Option-cases (e.find_command_key args.command_key)) [
  | inl f ↦ (ground (arith, f), ground (arith, f))
  | inr (j, f) ↦ elim (Option-cases (w.transfers j)) [
    | inl n ↦ (ground (arith, f, n), ground (arith, f, n))
    | inr (t, n) ↦ (ground (arith, f, n), ground (arith, f, n))
  ]
]

-- The times of the timers that run for uploads and for downloads of files.
abbrev pub delays : World → List ℕ
delays w = map (λ p. p.1) w.upload_timers ++ map (λ p. p.1) w.start_timers

delays-start_request :
    (d : ℕ) (r : World × Request)
    → r.0.upload_timers ≡ []
    → r.0.start_timers ≡ []
    → delays (start_request d r) ≡ d * 1000 % 2 ^ 32 ∷ []
unfolding start_request
delays-start_request d (w, req) none_up none_start = rw (none_up, none_start) refl

delays-upload_start :
    (args : Args) (w : World)
    → w.upload_timers ≡ []
    → w.start_timers ≡ []
    → delays (upload_start args w) ≡ args.delay_seconds * 1000 % 2 ^ 32 ∷ []
unfolding upload_start
delays-upload_start args w none_up none_start = rw (none_up, none_start) refl

delays-add_transfer :
    (e : Env) (args : Args) (w : World)
    → is_firmware args.file_type ≡ false
    → w.upload_timers ≡ []
    → w.start_timers ≡ []
    → delays (handle e (add_transfer args) w) ≡ args.delay_seconds * 1000 % 2 ^ 32 ∷ []
unfolding handle request_prepare
delays-add_transfer e args w other none_up none_start =
    let kept = set_target_file-timers e args (new_request args) w in
    let start =
      delays-start_request args.delay_seconds (set_target_file e args (new_request args) w)
        (kept.0 ∙ none_up) (kept.1 ∙ none_start) in
    let up = delays-upload_start args w none_up none_start in
    elim (Bool-cases args.is_download) [
      | inl d ↦
          let to : handle e (add_transfer args) w
              ≡ start_request args.delay_seconds (set_target_file e args (new_request args) w) =
            ground (arith, d, other) in
          ap delays to ∙ start
      | inr d ↦
          let to : handle e (add_transfer args) w ≡ upload_start args w = ground (arith, d) in
          ap delays to ∙ up
    ]

-- AddTransfer starts the timer of an upload with the delay of the ACS exactly up to 4294967 seconds,
-- and the timer of a file's download likewise; a longer delay wraps around.
pub delay-kept_iff :
    (e : Env) (args : Args) (w : World)
    → is_firmware args.file_type ≡ false
    → w.upload_timers ≡ []
    → w.start_timers ≡ []
    → let w' = handle e (add_transfer args) w in
      (delays w' ≡ args.delay_seconds * 1000 ∷ []) ↔ (args.delay_seconds ≤ 4294967)
delay-kept_iff e args w other none_up none_start =
    ground (arith, delays-add_transfer e args w other none_up none_start)
