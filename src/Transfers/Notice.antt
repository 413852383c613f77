-- ===== src/Transfers/Notice.antt =====
-- What a notification of the active firmware image does (cwmp_plugin/transfers_firmware.c).
use tr069_manager.Base.{
  ℕ, suc, String, ◌≡◌, refl, ◌⊎◌, inl, inr, true, none, some, [], ◌∷◌, ◌++◌, arith, str_eq,
  if◌then◌else◌,
}
use tr069_manager.Transfers.Defs.{
  Transfer, transfer_failed, World, status_text, put_transfer, set_status, update_transfercomplete,
}
use tr069_manager.Transfers.Window.{get_mode}
use tr069_manager.Transfers.Engine.{firmwareupgrade_done, is_failure, firmwareimage_notification}
use tr069_manager.Transfers.Passage.{InWindow}

abbrev pub notified : Transfer → String → Transfer
notified t log = record t {
  status = "Failed";
  fault_code = if str_eq log "Protocol not supported" then 9013 else 9010;
  fault_string = log;
}

-- A Status of the image that says that its download, validation, installation or activation failed.
abbrev pub IsFailureStatus : String → Type 0
IsFailureStatus s =
    (s ≡ "DownloadFailed")
    ⊎ ((s ≡ "ValidationFailed") ⊎ ((s ≡ "InstallationFailed") ⊎ (s ≡ "ActivationFailed")))

IsFailureStatus-is_failure : (s : String) → IsFailureStatus s → is_failure s ≡ true
unfolding is_failure
IsFailureStatus-is_failure s (inl p) = rw p refl
IsFailureStatus-is_failure s (inr (inl p)) = rw p refl
IsFailureStatus-is_failure s (inr (inr (inl p))) = rw p refl
IsFailureStatus-is_failure s (inr (inr (inr p))) = rw p refl

-- When the image's Status says a failure while the upgrade of a transfer is in progress that is
-- within its last window, an automatic one, the upgrade in progress is over, the transfer is Failed
-- with the log as its fault string and fault 9013 for "Protocol not supported" or 9010 for any other
-- log, and an event for its retry is queued if it was not Failed before; no Download() is called.
pub notification_failure :
    (i k : ℕ) (s log : String) (w : World) (t : Transfer)
    → w.current ≡ some i
    → IsFailureStatus s
    → w.transfers i ≡ some t
    → (p : InWindow t k) → p.info.last_window ≡ suc k
    → p.info.within_window ≡ true
    → let w' = firmwareimage_notification (some s) (some log) w in
      (w'.current ≡ none)
      × (w'.transfers i ≡ some (notified t log))
      × (w'.events
          ≡ (if str_eq t.status "Failed" then w.events else w.events ++ transfer_failed i ∷ []))
      × (w'.downloads ≡ w.downloads)
unfolding firmwareimage_notification firmwareupgrade_done set_status update_transfercomplete
    put_transfer status_text get_mode
notification_failure i k s log w t cur fail here p last within = (
  ground (
    arith,
    cur,
    IsFailureStatus-is_failure s fail,
    here,
    p.info_is,
    p.window_is,
    p.automatic,
    last,
    within,
  ),
  ground (
    arith,
    cur,
    IsFailureStatus-is_failure s fail,
    here,
    p.info_is,
    p.window_is,
    p.automatic,
    last,
    within,
  ),
  ground (
    arith,
    cur,
    IsFailureStatus-is_failure s fail,
    here,
    p.info_is,
    p.window_is,
    p.automatic,
    last,
    within,
  ),
  ground (
    arith,
    cur,
    IsFailureStatus-is_failure s fail,
    here,
    p.info_is,
    p.window_is,
    p.automatic,
    last,
    within,
  ),
)
