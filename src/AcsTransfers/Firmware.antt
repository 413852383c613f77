-- ===== src/AcsTransfers/Firmware.antt =====
-- cwmp_plugin/cwmp_plugin_transfer.c: the upgrades of the firmware image.
use mathlib.Core.Option
use tr069_manager.Base.{
  ℕ, Bool, true, false, not, ◌||◌, Option, none, some, List, [], ◌∷◌, ◌++◌, ◌==◌, if◌then◌else◌,
  CString, codes, streq,
}
use tr069_manager.AcsTransfers.Defs.{
  unknown_time, applying, finished, image_download, save, World, Env, fault_internal_error, perform,
}
use tr069_manager.AcsTransfers.Status.{update_transfer_obj}

unfoldable pub remove_first : ℕ → List ℕ → List ℕ
remove_first i [] = []
remove_first i (x ∷ l) = let rest = remove_first i l in if x == i then l else x ∷ rest

-- firmwareimage_del_subscription
unfoldable pub del_subscription : Env → ℕ → World → World
unfolding remove_first
del_subscription e i w =
    if e.unsubscribe_fails then w else record w { subscriptions = remove_first i w.subscriptions }

unfoldable pub is_failure : CString → Bool
is_failure s =
    streq s (codes "DownloadFailed")
    || (streq s (codes "ValidationFailed")
        || (streq s (codes "InstallationFailed") || streq s (codes "ActivationFailed")))

unfoldable pub image_fault : CString → ℕ
image_fault log =
    if streq log (codes "Protocol not supported")
    then 9013
    else if streq log (codes "(67) Error")
    then 9012
    else 9010

-- firmwareimage_notification: the new Status and BootFailureLog of the active image, for the
-- instance of one subscription.
unfoldable pub image_notification : Env → ℕ → Option CString → Option CString → World → World
image_notification e i none log w = w
image_notification e i (some status) log w =
    if is_failure status
    then del_subscription e i (
        update_transfer_obj i finished (some unknown_time)
          (some (image_fault (Option.get_or log []))) w)
    else w

-- firmware_upgrade: the subscription, then firmwareimage_download; true where both are done.
unfoldable pub firmware_upgrade : Env → ℕ → World → World × Bool
firmware_upgrade e i w = elim (w.transfers i) [
  | none ↦ (w, false)
  | some t ↦ if e.subscribe_fails then (w, false) else (
    perform (image_download t.url t.username t.password)
        (record w { subscriptions = w.subscriptions ++ i ∷ [] }),
    not e.image_call_fails,
  )
]

unfoldable pub abandon_unless : Env → ℕ → World × Bool → World
abandon_unless e i (w, true) = w
abandon_unless e i (w, false) =
    del_subscription e i (update_transfer_obj i finished none (some fault_internal_error) w)

-- download_timer_cb
unfoldable pub download_timer_cb : Env → ℕ → World → World
unfolding abandon_unless
download_timer_cb e i w =
    perform save
      (abandon_unless e i (firmware_upgrade e i (update_transfer_obj i applying none none w)))
