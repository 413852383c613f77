-- ===== src/Transfers/Events.antt =====
-- cwmp_plugin/transfers_dm.c: the handlers of the data model's events, and the RPC.
use tr069_manager.Base.{
  ℕ, String, Bool, true, false, ◌&&◌, Option, none, some, List, [], ◌∷◌, ◌==◌, if◌then◌else◌, ℤ,
  is_nonpos, pred_int,
}
use tr069_manager.Transfers.Defs.{
  TimeWindow, TransferInfo, Transfer, Event, transfer_failed, window_started, window_ended, World,
  find_window, put_transfer,
}
use tr069_manager.Transfers.Window.{get_mode, timewindow_start, set_maxretries, get_maxretries}
use tr069_manager.Transfers.Clean.{transfer_del_info}
use tr069_manager.Transfers.Engine.{
  is_automatic, start_transfer, transfer_done, handle_transfer, save_all, transfer_add_info,
}

put_info : ℕ → Transfer → TransferInfo → World → World
put_info i t info = put_transfer i (record t { info = some info })

-- _timewindow_started for window `k` of transfer `i`
unfoldable pub timewindow_started : Bool → ℕ → ℕ → World → World
unfolding put_info
timewindow_started ok i k w = elim (w.transfers i) [
  | none ↦ w
  | some t ↦ elim t.info [
    | none ↦ w
    | some info ↦
        handle_transfer ok i
          (put_info i t (record info { within_window = true; last_window = k }) w)
  ]
]

-- _timewindow_ended
unfoldable pub timewindow_ended : Bool → ℕ → World → World
unfolding put_info
timewindow_ended ok i w = elim (w.transfers i) [
  | none ↦ w
  | some t ↦ elim t.info [
    | none ↦ w
    | some info ↦ handle_transfer ok i (put_info i t (record info { within_window = false }) w)
  ]
]

-- The retries that are left to the window decide between the end of the transfer and a new start.
retry_or_end : Bool → ℕ → TransferInfo → ℤ → World → World
retry_or_end ok i info retries w =
    if is_nonpos retries
    then if info.number_of_windows == info.last_window then transfer_done i w else w
    else start_transfer ok i (set_maxretries i info.last_window (pred_int retries) w)

-- _schedule_download_transfer_failed
unfoldable pub schedule_download_transfer_failed : Bool → ℕ → World → World
unfolding retry_or_end get_mode get_maxretries is_automatic
schedule_download_transfer_failed ok i w = elim (w.transfers i) [
  | none ↦ w
  | some t ↦ elim t.info [
    | none ↦ w
    | some info ↦ elim (find_window info.last_window t.windows) [
      | none ↦ w
      | some tw ↦
          if is_automatic (get_mode (some tw)) && info.within_window
          then retry_or_end ok i info (get_maxretries (some tw)) w
          else w
    ]
  ]
]

-- _scheduleDownload_added for the new instance `i`
pub schedule_download_added : ℕ → World → World
schedule_download_added i w = timewindow_start i (transfer_add_info i w)

-- _app_stopped
pub app_stopped : World → World
app_stopped w = save_all w

-- _scheduleDownload_del_inst, and the removal of the instance by the data model after it
unfoldable pub schedule_download_del_inst : ℕ → World → World
schedule_download_del_inst i w =
    let w' = transfer_del_info i w in
    record w' { transfers = λ j. if j == i then none else w'.transfers j }

-- One event of the queue is handled.
unfoldable pub handle_event : Bool → Event → World → World
handle_event ok (transfer_failed i) w = schedule_download_transfer_failed ok i w
handle_event ok (window_started i k) w = timewindow_started ok i k w
handle_event ok (window_ended i k) w = timewindow_ended ok i w

abbrev take_event : Bool → List Event → World → World
take_event ok [] w = w
take_event ok (e ∷ l) w = handle_event ok e (record w { events = l })

unfoldable pub dispatch : Bool → World → World
dispatch ok w = take_event ok w.events w

-- The arguments of addScheduleDownload for one time window.
pub record WindowArgs : Type 0 where
  pub window_start : ℕ
  pub window_end : ℕ
  pub window_mode : String
  pub max_retries : ℤ

pub record DownloadArgs : Type 0 where
  pub file_type : String
  pub url : Option String
  pub username : Option String
  pub password : Option String
  pub windows : List WindowArgs

new_window : WindowArgs → TimeWindow
new_window a = record {
  status = "Idle";
  window_start = a.window_start;
  window_end = a.window_end;
  window_mode = a.window_mode;
  max_retries = a.max_retries;
  timers = none;
}

-- One window has to be there, and a third one is not looked at.
new_windows : List WindowArgs → Option (List TimeWindow)
unfolding new_window
new_windows [] = none
new_windows (a ∷ []) = some (new_window a ∷ [])
new_windows (a ∷ (b ∷ rest)) = some (new_window a ∷ (new_window b ∷ []))

-- _addScheduleDownload: the data model gives the new instance the index `i`. The result is true for
-- amxd_status_ok.
unfoldable pub add_schedule_download : ℕ → DownloadArgs → World → World × Bool
unfolding new_windows
add_schedule_download i a w = elim (new_windows a.windows) [
  | none ↦ (w, false)
  | some windows ↦ (
    put_transfer i
        (record {
          file_type = a.file_type;
          url = a.url;
          username = a.username;
          password = a.password;
          windows = windows;
          status = "Idle";
          fault_code = 0;
          fault_string = "";
          info = none;
          info_freed = false;
        })
        w,
    true,
  )
]
