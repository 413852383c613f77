-- ===== src/AcsTransfers/Passing.antt =====
-- The downloads and upgrades of cwmp_plugin/cwmp_plugin_transfer.c lose no upload.
use mathlib.Core.Option
use tr069_manager.Base.{
  ℕ, ◌*◌, ◌%◌, ◌^◌, inl, inr, Bool, true, false, Option, none, some, [], ◌∷◌, ◌++◌, arith, leb,
  ◌==◌, if◌then◌else◌, Bool-cases, Option-cases, CString,
}
use tr069_manager.AcsTransfers.Defs.{
  unknown_time, applying, finished, Args, Request, Result, image_download, run_task, save, World,
  Env, fault_internal_error, perform,
}
use tr069_manager.AcsTransfers.Status.{update_transfer_obj}
use tr069_manager.AcsTransfers.Upload.{upload_start}
use tr069_manager.AcsTransfers.Firmware.{
  del_subscription, is_failure, image_fault, image_notification, firmware_upgrade, abandon_unless,
  download_timer_cb,
}
use tr069_manager.AcsTransfers.Download.{
  script_of, download_finished, request_cb, target_file_of, new_request, set_target_file,
  start_request, prepare_firmware, request_prepare,
}
use tr069_manager.AcsTransfers.Tracked.{
  any-append, is_upload_of, Adds, Adds-refl, Adds-trans, perform-Adds, put-Adds,
  transfer_update_status-Adds, update_transfer_obj-Adds,
}

del_subscription-Adds :
    (i j : ℕ) (e : Env) (v w : World) → Adds i v w → Adds i v (del_subscription e j w)
unfolding del_subscription
del_subscription-Adds i j e v w (a, b, c, d, f) =
    (ground (arith, a), ground (arith, b), ground (arith, c), ground (arith, d), ground (arith, f))

pub image_notification-Adds :
    (i j : ℕ) (e : Env) (status log : Option CString) (w : World)
    → Adds i w (image_notification e j status log w)
unfolding image_notification
image_notification-Adds i j e none log w = Adds-refl i w
image_notification-Adds i j e (some status) log w = elim (Bool-cases (is_failure status)) [
  | inl f ↦
      rw (f, image_notification)
        (del_subscription-Adds i j e w _ (
          update_transfer_obj-Adds i j finished (some unknown_time)
            (some (image_fault (Option.get_or log []))) w))
  | inr f ↦ rw (f, image_notification) (Adds-refl i w)
]

firmware_upgrade-Adds :
    (i j : ℕ) (e : Env) (v w : World) → Adds i v w → Adds i v (firmware_upgrade e j w).0
unfolding firmware_upgrade
firmware_upgrade-Adds i j e v w all = elim (Option-cases (w.transfers j)) [
  | inl n ↦ rw (n, firmware_upgrade) all
  | inr (t, n) ↦ elim (Bool-cases e.subscribe_fails) [
    | inl f ↦ rw (n, f, firmware_upgrade) all
    | inr f ↦
        let w' = record w { subscriptions = w.subscriptions ++ j ∷ [] } in
        let action = image_download t.url t.username t.password in
        rw (n, f, firmware_upgrade)
          (Adds-trans i v w' (perform action w') all (perform-Adds i action w'))
  ]
]

abandon-Adds :
    (i j : ℕ) (e : Env) (v : World) (r : World × Bool)
    → Adds i v r.0
    → Adds i v (abandon_unless e j r)
unfolding abandon_unless
abandon-Adds i j e v (w, true) all = all
abandon-Adds i j e v (w, false) all =
    let w' = update_transfer_obj j finished none (some fault_internal_error) w in
    del_subscription-Adds i j e v w' (
      Adds-trans i v w w' all
        (update_transfer_obj-Adds i j finished none (some fault_internal_error) w))

pub download_timer_cb-Adds : (i j : ℕ) (e : Env) (w : World) → Adds i w (download_timer_cb e j w)
unfolding download_timer_cb
download_timer_cb-Adds i j e w =
    let w' = update_transfer_obj j applying none none w in
    let r = firmware_upgrade e j w' in
    let all =
      abandon-Adds i j e w r
        (firmware_upgrade-Adds i j e w w' (update_transfer_obj-Adds i j applying none none w)) in
    Adds-trans i w (abandon_unless e j r) (perform save (abandon_unless e j r)) all
      (perform-Adds i save (abandon_unless e j r))

download_finished-Adds : (i j : ℕ) (w : World) → Adds i w (download_finished j w)
unfolding download_finished
download_finished-Adds i j w = elim (Option-cases (w.transfers j)) [
  | inl n ↦ rw (n, download_finished) (Adds-refl i w)
  | inr (t, n) ↦ elim (Option-cases (script_of t.file_type)) [
    | inl s ↦ rw (n, s, download_finished) (Adds-refl i w)
    | inr (script, s) ↦
        rw (n, s, download_finished) (perform-Adds i (run_task script t.save_file_name) w)
  ]
]

pub request_cb-Adds :
    (i : ℕ) (r : Result) (req : Request) (w : World) → Adds i w (request_cb r req w)
unfolding request_cb
request_cb-Adds i r req w =
    let w' = if r.error_code == 0 then download_finished req.index w else w in
    let first : Adds i w w' = elim (Bool-cases (r.error_code == 0)) [
      | inl z ↦ rw z (download_finished-Adds i req.index w)
      | inr z ↦ rw z (Adds-refl i w)
    ] in
    Adds-trans i w w' (request_cb r req w) first (
      transfer_update_status-Adds i req.index finished r.request_start r.request_end r.error_code
        r.error_reason w')

set_target_file-Adds :
    (i : ℕ) (e : Env) (args : Args) (req : Request) (w : World)
    → Adds i w (set_target_file e args req w).0
unfolding set_target_file
set_target_file-Adds i e args req w = elim (Option-cases (e.find_command_key args.command_key)) [
  | inl f ↦ rw (f, set_target_file) (Adds-refl i w)
  | inr (j, f) ↦ elim (Option-cases (w.transfers j)) [
    | inl n ↦ rw (f, n, set_target_file) (Adds-refl i w)
    | inr (t, n) ↦
        rw (f, n, set_target_file)
          (put-Adds i j (record t { save_file_name = target_file_of args }) w)
  ]
]

prepare_firmware-Adds : (i : ℕ) (args : Args) (w : World) → Adds i w (prepare_firmware args w).0
unfolding prepare_firmware
prepare_firmware-Adds i args w = elim (Option-cases (w.transfers args.index)) [
  | inl n ↦ rw (n, prepare_firmware) (Adds-refl i w)
  | inr (t, n) ↦
      let timers = w.download_timers ++ (args.index, args.delay_seconds * 1000 % 2 ^ 32) ∷ [] in
      let w' = record w { download_timers = timers } in
      let w'' = update_transfer_obj args.index applying none none w' in
      let applied = update_transfer_obj-Adds i args.index applying none none w' in
      elim (Bool-cases (leb args.delay_seconds 1)) [
        | inl d ↦
            rw (n, d, prepare_firmware)
              (Adds-trans i w w'' (perform save w'') applied (perform-Adds i save w''))
        | inr d ↦ rw (n, d, prepare_firmware) (perform-Adds i save w')
      ]
]

upload_start-Adds : (i : ℕ) (args : Args) (w : World) → Adds i w (upload_start args w)
unfolding upload_start
upload_start-Adds i args w = (
  ground arith,
  ground (
    arith,
    any-append (is_upload_of i) w.upload_timers ((args, args.delay_seconds * 1000 % 2 ^ 32) ∷ []),
  ),
  ground arith,
  ground arith,
  ground arith,
)

pub request_prepare-Adds :
    (i : ℕ) (e : Env) (args : Args) (w : World) → Adds i w (request_prepare e args w).0
unfolding request_prepare start_request
request_prepare-Adds i e args w = ground (
  arith,
  prepare_firmware-Adds i args w,
  set_target_file-Adds i e args (new_request args) w,
  upload_start-Adds i args w,
)
