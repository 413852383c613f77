-- ===== src/Transfers/Defs.antt =====
-- The data of scheduled downloads, their store, and how a Status is read and written.
use mathlib.Core.Option
use tr069_manager.Base.{
  ℕ, zero, suc, String, ◌≡◌, refl, ◌≢◌, Bool, not, ◌&&◌, Option, none, some, List, [], ◌∷◌, ◌++◌,
  arith, str_eq, ◌==◌, if◌then◌else◌, get_elem?, ℤ,
}

pub data TransferStatus : Type 0 where
  undefined idle in_progress failed done : TransferStatus

pub data WindowStatus : Type 0 where
  undefined idle started ended : WindowStatus

pub data WindowMode : Type 0 where
  undefined at_any_time immediately when_idle confirmation_needed : WindowMode

abbrev pub fault_internal_error : ℕ
fault_internal_error = 9002

abbrev pub fault_file_transfer_failure : ℕ
fault_file_transfer_failure = 9010

abbrev pub fault_unsupported_protocol : ℕ
fault_unsupported_protocol = 9013

-- An amxp timer: the milliseconds that are left, or `none` if it does not run.
abbrev pub Timer : Type 0
Timer = Option ℕ

-- timewindow_info_t; a pointer to a timer may be NULL.
pub record Timers : Type 0 where
  pub start_timer : Option Timer
  pub end_timer : Option Timer

-- An instance of TimeWindowList; `timers` is what the object's `priv` leads to.
pub record TimeWindow : Type 0 where
  pub status : String
  pub window_start : ℕ
  pub window_end : ℕ
  pub window_mode : String
  pub max_retries : ℤ
  pub timers : Option Timers

-- transfer_info_t
pub record TransferInfo : Type 0 where
  pub number_of_windows : ℕ
  pub last_window : ℕ
  pub within_window : Bool

-- An instance of ScheduleDownload with its TransferComplete; `info` is what `priv` leads to. The
-- instances of TimeWindowList have the indices 1, 2.
pub record Transfer : Type 0 where
  pub file_type : String
  pub url : Option String
  pub username : Option String
  pub password : Option String
  pub windows : List TimeWindow
  pub status : String
  pub fault_code : ℕ
  pub fault_string : String
  pub info : Option TransferInfo
  pub info_freed : Bool  -- priv still leads to a transfer_info_t that was freed

pub data Event : Type 0 where
  transfer_failed : ℕ → Event
  window_started window_ended : ℕ → ℕ → Event

-- A call of DeviceInfo.FirmwareImage.active.Download().
pub record Download : Type 0 where
  pub url : String
  pub username : String
  pub password : String

-- `current` is transfer_in_progress; `downloads` holds the calls that were made, newest last.
pub record World : Type 0 where
  pub transfers : ℕ → Option Transfer
  pub current : Option ℕ
  pub events : List Event
  pub downloads : List Download

abbrev pub is_firmware : String → Bool
is_firmware t = str_eq t "1 Firmware Upgrade Image"

abbrev pub is_empty_text : String → Bool
is_empty_text s = str_eq s ""

unfoldable pub status_of_text : String → TransferStatus
status_of_text v =
    if str_eq v "Idle"
    then TransferStatus.idle
    else if str_eq v "In Progress"
    then in_progress
    else if str_eq v "Failed"
    then failed
    else if str_eq v "Done"
    then done
    else TransferStatus.undefined

unfoldable pub status_text : TransferStatus → Option String
status_text TransferStatus.idle = some "Idle"
status_text in_progress = some "In Progress"
status_text failed = some "Failed"
status_text done = some "Done"
status_text TransferStatus.undefined = none

unfoldable pub window_status_of_text : String → WindowStatus
window_status_of_text v =
    if str_eq v "Idle"
    then WindowStatus.idle
    else if str_eq v "Started"
    then started
    else if str_eq v "Ended"
    then ended
    else WindowStatus.undefined

unfoldable pub window_status_text : WindowStatus → Option String
window_status_text WindowStatus.idle = some "Idle"
window_status_text started = some "Started"
window_status_text ended = some "Ended"
window_status_text WindowStatus.undefined = none

unfoldable pub mode_of_text : String → WindowMode
mode_of_text v =
    if str_eq v "1 At Any Time"
    then at_any_time
    else if str_eq v "2 Immediately"
    then immediately
    else if str_eq v "3 When Idle"
    then when_idle
    else if str_eq v "4 Confirmation Needed"
    then confirmation_needed
    else WindowMode.undefined

-- amxd_object_findf(obj, ".TimeWindowList.%d.", k)
abbrev pub find_window : ℕ → List TimeWindow → Option TimeWindow
find_window zero l = none
find_window (suc k) l = get_elem? l k

abbrev pub window_of : World → ℕ → ℕ → Option TimeWindow
window_of w i k = elim (w.transfers i) [ none ↦ none | some t ↦ find_window k t.windows ]

unfoldable pub put_transfer : ℕ → Transfer → World → World
put_transfer i t w = record w { transfers = λ j. if j == i then some t else w.transfers j }

abbrev pub push_event : Bool → Event → World → World
push_event b e w = record w { events = if b then w.events ++ e ∷ [] else w.events }

-- transfers_get_status
unfoldable pub get_status : World → ℕ → TransferStatus
get_status w i = elim (w.transfers i) [
  | none ↦ TransferStatus.undefined
  | some t ↦ status_of_text t.status
]

-- transfers_set_status: the handler of "Failed" is called where the Status was another.
unfoldable pub set_status : ℕ → TransferStatus → World → World
set_status i s w = elim (w.transfers i) [
  | none ↦ w
  | some t ↦ elim (status_text s) [
    | none ↦ w
    | some v ↦
        push_event (not (str_eq t.status v) && str_eq v "Failed") (transfer_failed i)
          (put_transfer i (record t { status = v }) w)
  ]
]

-- transfers_update_transfercomplete; its callers give no times.
unfoldable pub update_transfercomplete : ℕ → Option ℕ → Option String → World → World
update_transfercomplete i code text w = elim (w.transfers i) [
  | none ↦ w
  | some t ↦
      put_transfer i
        (record t {
          fault_code = Option.get_or code t.fault_code;
          fault_string = Option.get_or text t.fault_string;
        })
        w
]

-- A Status that is written reads back as it was, if it has a text.
pub get_status-set_status :
    (w : World) (i : ℕ) (s : TransferStatus) (t : Transfer)
    → w.transfers i ≡ some t
    → s ≢ TransferStatus.undefined
    → get_status (set_status i s w) i ≡ s
unfolding get_status set_status status_text status_of_text put_transfer
get_status-set_status w i TransferStatus.undefined t h k = absurd (k refl)
get_status-set_status w i TransferStatus.idle t h k = ground (arith, h)
get_status-set_status w i in_progress t h k = ground (arith, h)
get_status-set_status w i failed t h k = ground (arith, h)
get_status-set_status w i done t h k = ground (arith, h)
