-- ===== src/Transfers/Examples.antt =====
-- Runs of scheduled downloads, and the theorems at concrete transfers.
use tr069_manager.Base.{
  ℕ, ◌*◌, ◌≤◌, ◌≡◌, refl, ◌↔◌, inl, true, false, Option, none, some, [], ◌∷◌, arith, pos, ◌==◌,
  if◌then◌else◌, replicate,
}
use tr069_manager.Transfers.Defs.{
  failed, done, TimeWindow, TransferInfo, Transfer, transfer_failed, Download, World,
  status_of_text, window_status_of_text, mode_of_text, get_status, set_status,
  get_status-set_status,
}
use tr069_manager.Transfers.Window.{
  get_time_offset, internal_add_info, internal_del_info, internal_start, internal_save,
}
use tr069_manager.Transfers.Resume.{
  start_left, end_left, restart, KeepsTime, restart-KeepsTime, restart_started, start_left_iff,
}
use tr069_manager.Transfers.Firmware.{is_current}
use tr069_manager.Transfers.Engine.{is_automatic, start_transfer, firmwareimage_notification}
use tr069_manager.Transfers.Events.{
  timewindow_started, timewindow_ended, schedule_download_del_inst, handle_event,
}
use tr069_manager.Transfers.Outcome.{IsReady, failed_transfer}
use tr069_manager.Transfers.Retry.{InLastWindow, HasEnded, dispatch_times, start_retries_end}
use tr069_manager.Transfers.Exclusion.{handle_event-downloads}
use tr069_manager.Transfers.Notice.{notified, notification_failure}
use tr069_manager.Transfers.Passage.{
  InWindow, entered, started_while_busy, del_inst-blocks, left_window, last_window_ends,
}

abbrev window_one : TimeWindow
window_one = record {
  status = "Started";
  window_start = 0;
  window_end = 60;
  window_mode = "1 At Any Time";
  max_retries = pos 2;
  timers = none;
}

abbrev info_one : TransferInfo
info_one = record { number_of_windows = 1; last_window = 1; within_window = true }

abbrev firmware_transfer : Transfer
firmware_transfer = record {
  file_type = "1 Firmware Upgrade Image";
  url = some "http://acs/fw";
  username = some "u";
  password = some "p";
  windows = window_one ∷ [];
  status = "Idle";
  fault_code = 0;
  fault_string = "";
  info = some info_one;
  info_freed = false;
}

abbrev firmware_download : Download
firmware_download = record { url = "http://acs/fw"; username = "u"; password = "p" }

-- One transfer, with index 1, and `current` in progress.
abbrev world : Option ℕ → World
world c = record {
  transfers = λ j. if j == 1 then some firmware_transfer else none;
  current = c;
  events = [];
  downloads = [];
}

transfer-IsReady : IsReady firmware_transfer firmware_download
transfer-IsReady = record {
  firmware = refl;
  filled = refl;
  url_is = refl;
  username_is = refl;
  password_is = refl;
}

transfer-InLastWindow : InLastWindow firmware_transfer 2
unfolding is_automatic mode_of_text
transfer-InLastWindow = record {
  last = 0;
  info_is = refl;
  window = window_one;
  window_is = refl;
  automatic = refl;
  retries = refl;
}

transfer-InWindow : InWindow firmware_transfer 0
unfolding is_automatic mode_of_text status_of_text
transfer-InWindow = record {
  info = info_one;
  info_is = refl;
  window = window_one;
  window_is = refl;
  automatic = refl;
  open_end = refl;
}

start_retries_end_example :
    let w' = dispatch_times 3 (start_transfer false 1 (world none)) in
    HasEnded w' 1 × (w'.downloads ≡ replicate 3 firmware_download)
start_retries_end_example =
    start_retries_end 2 (world none) 1 firmware_transfer firmware_download refl transfer-IsReady
      transfer-InLastWindow refl refl

handle_event-downloads_example :
    (handle_event true (transfer_failed 1) (world (some 4))).downloads ≡ []
handle_event-downloads_example =
    handle_event-downloads true (transfer_failed 1) 4 (world (some 4)) refl

started_while_busy_test :
    let w' = timewindow_started true 1 1 (world (some 1)) in
    (w'.transfers 1 ≡ some (failed_transfer (entered firmware_transfer info_one 0)))
    × (w'.current ≡ some 1)
    × (w'.downloads ≡ [])
unfolding transfer-InWindow
started_while_busy_test =
    started_while_busy true 1 1 0 (world (some 1)) firmware_transfer firmware_download refl
      transfer-IsReady transfer-InWindow refl

del_inst-blocks_test :
    let w = world (some 7) in
    let w' = timewindow_started true 1 1 (schedule_download_del_inst 7 w) in
    (w'.transfers 1 ≡ some (failed_transfer (entered firmware_transfer info_one 0)))
    × (w'.downloads ≡ [])
    × (w'.current ≡ some 7)
    × ((schedule_download_del_inst 7 w).transfers 7 ≡ none)
unfolding transfer-InWindow
del_inst-blocks_test =
    del_inst-blocks true 1 7 0 (world (some 7)) firmware_transfer firmware_download (omega arith)
      refl refl transfer-IsReady transfer-InWindow

last_window_ends_test :
    let w' = timewindow_ended true 1 (world (some 1)) in
    (get_status w' 1 ≡ done)
    × (w'.transfers 1
        ≡ some (record (left_window firmware_transfer info_one) {
          status = "Done";
          fault_code = 9002;
          fault_string = "TimeWindow(s) ended";
        }))
    × (w'.downloads ≡ [])
    × (is_current w'.current 1 ≡ false)
unfolding transfer-InWindow
last_window_ends_test =
    last_window_ends true 1 0 (world (some 1)) firmware_transfer firmware_download refl
      transfer-IsReady transfer-InWindow refl refl

notification_failure_example :
    let w' =
      firmwareimage_notification (some "DownloadFailed") (some "no route") (world (some 1)) in
    (w'.current ≡ none)
    × (w'.transfers 1 ≡ some (notified firmware_transfer "no route"))
    × (w'.events ≡ transfer_failed 1 ∷ [])
    × (w'.downloads ≡ [])
unfolding transfer-InWindow
notification_failure_example =
    notification_failure 1 0 "DownloadFailed" "no route" (world (some 1)) firmware_transfer refl
      (inl refl) refl transfer-InWindow refl refl

abbrev waiting : TimeWindow
waiting = record {
  status = "Idle";
  window_start = 3600;
  window_end = 7200;
  window_mode = "1 At Any Time";
  max_retries = pos 0;
  timers = some (record { start_timer = some (some 5500); end_timer = some (some 9999) });
}

restart-KeepsTime_example :
    KeepsTime 5500 (start_left (restart waiting)) × KeepsTime 9999 (end_left (restart waiting))
restart-KeepsTime_example =
    restart-KeepsTime waiting _ 5500 9999 refl refl refl refl (omega arith) (omega arith)

abbrev running : TimeWindow
running = record waiting {
  status = "Started";
  timers = some (record { start_timer = none; end_timer = some (some 9999) });
}

restart_started_test :
    KeepsTime 9999 (end_left (restart running)) × (start_left (restart running) ≡ 0)
restart_started_test = restart_started running _ 9999 refl refl refl (omega arith)

start_left_iff_test :
    let left = start_left (internal_start waiting) in
    ((left ≡ 3600 * 1000) ↔ (3600 ≤ 4294967)) × (left ≤ 3600 * 1000)
start_left_iff_test = start_left_iff waiting _ (some 5500) refl refl refl

restart_test : start_left (restart waiting) ≡ 5000
unfolding restart internal_start internal_add_info internal_del_info internal_save get_time_offset
    window_status_of_text
restart_test = refl

get_status_test : get_status (set_status 1 failed (world none)) 1 ≡ failed
get_status_test = get_status-set_status (world none) 1 failed firmware_transfer refl (λ e. cc)
