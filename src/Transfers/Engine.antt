-- ===== src/Transfers/Engine.antt =====
-- cwmp_plugin/transfers.c and the notification of cwmp_plugin/transfers_firmware.c: what is done
-- with a transfer. `ok` is what Download() returns if it is called; no function calls it twice.
use mathlib.Core.Option
use tr069_manager.Base.{
  ℕ, suc, String, Bool, true, false, ◌&&◌, ◌||◌, Option, none, some, List, [], ◌∷◌, str_eq, ◌==◌,
  if◌then◌else◌, length,
}
use tr069_manager.Transfers.Defs.{
  TransferStatus, in_progress, failed, done, started, ended, WindowMode, at_any_time, immediately,
  fault_internal_error, fault_file_transfer_failure, fault_unsupported_protocol, TimeWindow,
  TransferInfo, Transfer, World, is_firmware, is_empty_text, find_window, put_transfer, get_status,
  set_status, update_transfercomplete,
}
use tr069_manager.Transfers.Window.{
  window_status, get_mode, internal_save, on_windows, timewindow_add_info, timewindow_start,
}
use tr069_manager.Transfers.Firmware.{do_firmwareupgrade, firmware_transfer_done}

unfoldable pub is_automatic : WindowMode → Bool
is_automatic immediately = true
is_automatic at_any_time = true
is_automatic _ = false

-- The mode of the transfer's last window.
pub last_mode : Transfer → TransferInfo → WindowMode
unfolding get_mode
last_mode t info = get_mode (find_window info.last_window t.windows)

after_upgrade : ℕ → World × Bool → World
after_upgrade i (w, true) = w
after_upgrade i (w, false) =
    set_status i failed
      (update_transfercomplete i (some fault_internal_error) (some "Failed to perform upgrade") w)

unfoldable pub start_transfer : Bool → ℕ → World → World
unfolding after_upgrade
start_transfer ok i w = elim (w.transfers i) [
  | none ↦ w
  | some t ↦
      if is_empty_text t.file_type
      then w
      else if is_firmware t.file_type
      then after_upgrade i (do_firmwareupgrade ok i (set_status i in_progress w))
      else w
]

unfoldable pub transfer_done : ℕ → World → World
transfer_done i w = elim (w.transfers i) [
  | none ↦ w
  | some t ↦
      if is_empty_text t.file_type
      then w
      else set_status i done (if is_firmware t.file_type then firmware_transfer_done i w else w)
]

abbrev pub is_done : TransferStatus → Bool
is_done done = true
is_done _ = false

-- transfers_handle_transfer
unfoldable pub handle_transfer : Bool → ℕ → World → World
unfolding last_mode is_automatic
handle_transfer ok i w = elim (w.transfers i) [
  | none ↦ w
  | some t ↦ if is_done (get_status w i) then w else elim t.info [
    | none ↦ w
    | some info ↦
        if info.last_window == 0
        then w
        else if is_automatic (last_mode t info)
        then if info.within_window
          then start_transfer ok i w
          else if info.number_of_windows == info.last_window
          then transfer_done i
              (update_transfercomplete i (some fault_internal_error) (some "TimeWindow(s) ended") w)
          else w
        else w
  ]
]

conclude : ℕ → ℕ → World → World
conclude i code w = if code == 0 then transfer_done i w else set_status i failed w

-- transfers_firmwareupgrade_done
unfoldable pub firmwareupgrade_done : ℕ → ℕ → String → World → World
unfolding last_mode is_automatic conclude
firmwareupgrade_done i code text w = elim (w.transfers i) [
  | none ↦ w
  | some t ↦ elim t.info [
    | none ↦ w
    | some info ↦
        if info.last_window == 0
        then w
        else if is_automatic (last_mode t info) && info.within_window
        then conclude i code (update_transfercomplete i (some code) (some text) w)
        else w
  ]
]

unfoldable pub is_failure : String → Bool
is_failure s =
    str_eq s "DownloadFailed"
    || (str_eq s "ValidationFailed"
        || (str_eq s "InstallationFailed" || str_eq s "ActivationFailed"))

pub failure_code : String → ℕ
failure_code log =
    if str_eq log "Protocol not supported"
    then fault_unsupported_protocol
    else fault_file_transfer_failure

save_windows : Transfer → Transfer
save_windows t = record t { windows = on_windows internal_save t.windows }

-- transfers_save, over the instances of the store.
unfoldable pub save_all : World → World
unfolding on_windows internal_save save_windows
save_all w = record w { transfers = λ i. Option.map save_windows (w.transfers i) }

-- firmwareimage_notification: the new Status and BootFailureLog of the active image.
unfoldable pub firmwareimage_notification : Option String → Option String → World → World
unfolding is_failure failure_code
firmwareimage_notification status log w = elim w.current [
  | none ↦ w
  | some i ↦ elim status [
    | none ↦ w
    | some s ↦
        let text = Option.get_or log "" in
        if is_failure s
        then record (firmwareupgrade_done i (failure_code text) text w) { current = none }
        else if str_eq s "Validating"
        then save_all w
        else w
  ]
]

-- The windows in their order: the last one that was seen started or ended counts.
scan_windows : ℕ → List TimeWindow → TransferInfo → TransferInfo
scan_windows k [] info = info
scan_windows k (tw ∷ l) info = scan_windows (suc k) l (elim (window_status tw) [
  | started ↦ record info { last_window = k; within_window = true }
  | ended ↦ record info { last_window = k; within_window = false }
  | _ ↦ info
])

abbrev blank_info : ℕ → TransferInfo
blank_info n = record { number_of_windows = n; last_window = 0; within_window = false }

-- transfers_transfer_add_info
unfoldable pub transfer_add_info : ℕ → World → World
unfolding scan_windows
transfer_add_info i w = elim (w.transfers i) [
  | none ↦ w
  | some t ↦ elim t.info [
    | some info ↦ w
    | none ↦
        let n = length t.windows in
        let w' =
          put_transfer i (record t { info = some (scan_windows 1 t.windows (blank_info n)) }) w in
        if n == 0 then w' else timewindow_add_info i w'
  ]
]

-- handle_pending_upgrade: the Status of the active image, if it can be read.
pub handle_pending_upgrade : Option String → ℕ → World → World
handle_pending_upgrade none i w = firmwareupgrade_done i fault_internal_error "Internal failure" w
handle_pending_upgrade (some s) i w =
    if str_eq s "Active"
    then firmwareupgrade_done i 0 "" w
    else firmwareupgrade_done i fault_internal_error "Failed to apply firmware" w

-- transfers_handle_in_progress_transfer
unfoldable pub handle_in_progress_transfer : Option String → ℕ → World → World
unfolding handle_pending_upgrade
handle_in_progress_transfer image i w = elim (w.transfers i) [
  | none ↦ w
  | some t ↦
      if str_eq t.status "In Progress" && is_firmware t.file_type
      then handle_pending_upgrade image i w
      else w
]

-- The work of deferred_init_timer_cb on one instance, and on the instances in their order.
unfoldable pub init_instance : Option String → ℕ → World → World
init_instance image i w =
    timewindow_start i (handle_in_progress_transfer image i (transfer_add_info i w))

pub deferred_init : Option String → List ℕ → World → World
deferred_init image [] w = w
deferred_init image (i ∷ l) w = deferred_init image l (init_instance image i w)
