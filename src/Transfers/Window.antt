-- ===== src/Transfers/Window.antt =====
-- cwmp_plugin/transfers_timewindow.c: the time windows of one transfer and their timers. Times are
-- in seconds in the data model and in milliseconds in the timers, as uint32_t.
use mathlib.Core.Option
use tr069_manager.Base.{
  ℕ, zero, suc, ◌*◌, ◌/◌, ◌%◌, ◌^◌, Bool, true, false, not, ◌&&◌, Option, none, some, List, [], ◌∷◌,
  str_eq, negsuc, set, ℤ,
}
use tr069_manager.Transfers.Defs.{
  WindowStatus, started, ended, WindowMode, Timer, Timers, TimeWindow, Transfer, Event,
  window_started, window_ended, World, window_status_of_text, window_status_text, mode_of_text,
  find_window, put_transfer, push_event,
}

abbrev pub window_status : TimeWindow → WindowStatus
window_status tw = window_status_of_text tw.status

-- transfers_timewindow_get_mode; no window has no mode.
unfoldable pub get_mode : Option TimeWindow → WindowMode
get_mode none = WindowMode.undefined
get_mode (some tw) = mode_of_text tw.window_mode

-- timewindow_get_time_offset: the seconds as milliseconds, in uint32_t.
unfoldable pub get_time_offset : ℕ → ℕ
get_time_offset seconds = seconds * 1000 % 2 ^ 32

-- amxp_timer_start; on NULL it does nothing.
abbrev pub timer_start : Option Timer → ℕ → Option Timer
timer_start timer ms = Option.map (λ _. some ms) timer

-- amxp_timer_remaining_time
abbrev pub remaining_time : Option Timer → ℕ
remaining_time none = 0
remaining_time (some none) = 0
remaining_time (some (some ms)) = ms

new_timers : WindowStatus → Timers
new_timers WindowStatus.idle = record { start_timer = some none; end_timer = some none }
new_timers started = record { start_timer = none; end_timer = some none }
new_timers ended = record { start_timer = none; end_timer = none }
new_timers WindowStatus.undefined = record { start_timer = none; end_timer = none }

-- timewindow_internal_add_info
unfoldable pub internal_add_info : TimeWindow → TimeWindow
unfolding new_timers
internal_add_info tw = elim tw.timers [
  | some i ↦ tw
  | none ↦ record tw { timers = some (new_timers (window_status tw)) }
]

-- timewindow_internal_del_info
unfoldable pub internal_del_info : TimeWindow → TimeWindow
internal_del_info tw = record tw { timers = none }

start_timers : TimeWindow → Timers → WindowStatus → Timers
start_timers tw i WindowStatus.idle = record {
  start_timer = timer_start i.start_timer (get_time_offset tw.window_start);
  end_timer = timer_start i.end_timer (get_time_offset tw.window_end);
}
start_timers tw i started = record i {
  end_timer = timer_start i.end_timer (get_time_offset tw.window_end);
}
start_timers tw i ended = i
start_timers tw i WindowStatus.undefined = i

-- timewindow_internal_start
unfoldable pub internal_start : TimeWindow → TimeWindow
unfolding start_timers
internal_start tw = elim tw.timers [
  | none ↦ tw
  | some i ↦ record tw { timers = some (start_timers tw i (window_status tw)) }
]

save_timers : TimeWindow → Timers → WindowStatus → TimeWindow
save_timers tw i WindowStatus.idle = record tw {
  window_start = remaining_time i.start_timer / 1000;
  window_end = remaining_time i.end_timer / 1000;
}
save_timers tw i started = record tw {
  window_start = 0;
  window_end = remaining_time i.end_timer / 1000;
}
save_timers tw i ended = tw
save_timers tw i WindowStatus.undefined = tw

-- timewindow_internal_save
unfoldable pub internal_save : TimeWindow → TimeWindow
unfolding save_timers
internal_save tw = elim tw.timers [ none ↦ tw | some i ↦ save_timers tw i (window_status tw) ]

-- The instances 1 and 2 of TimeWindowList; without the first nothing is done.
unfoldable pub on_windows : (TimeWindow → TimeWindow) → List TimeWindow → List TimeWindow
on_windows f [] = []
on_windows f (a ∷ []) = f a ∷ []
on_windows f (a ∷ (b ∷ rest)) = f a ∷ (f b ∷ rest)

unfoldable pub on_transfer : (Transfer → Transfer) → ℕ → World → World
on_transfer f i w = elim (w.transfers i) [ none ↦ w | some t ↦ put_transfer i (f t) w ]

-- transfers_timewindow_add_info, _del_info, _start and _save
unfoldable pub timewindow_add_info : ℕ → World → World
unfolding on_transfer on_windows internal_add_info
timewindow_add_info =
    on_transfer (λ t. record t { windows = on_windows internal_add_info t.windows })

unfoldable pub timewindow_del_info : ℕ → World → World
unfolding on_transfer on_windows internal_del_info
timewindow_del_info =
    on_transfer (λ t. record t { windows = on_windows internal_del_info t.windows })

unfoldable pub timewindow_start : ℕ → World → World
unfolding on_transfer on_windows internal_start
timewindow_start = on_transfer (λ t. record t { windows = on_windows internal_start t.windows })

unfoldable pub timewindow_save : ℕ → World → World
unfolding on_transfer on_windows internal_save
timewindow_save = on_transfer (λ t. record t { windows = on_windows internal_save t.windows })

-- The instance `k` of a TimeWindowList is replaced.
abbrev pub set_window : ℕ → TimeWindow → List TimeWindow → List TimeWindow
set_window zero tw l = l
set_window (suc k) tw l = set l k tw

status_event : ℕ → ℕ → WindowStatus → Event
status_event i k ended = window_ended i k
status_event i k _ = window_started i k

has_handler : WindowStatus → Bool
has_handler started = true
has_handler ended = true
has_handler _ = false

-- timewindow_set_status: the handler of "Started" or "Ended" is called where the Status was another.
pub window_set_status : ℕ → ℕ → WindowStatus → World → World
unfolding status_event has_handler
window_set_status i k s w = elim (w.transfers i) [
  | none ↦ w
  | some t ↦ elim (find_window k t.windows) [
    | none ↦ w
    | some tw ↦ elim (window_status_text s) [
      | none ↦ w
      | some v ↦ push_event (not (str_eq tw.status v) && has_handler s) (status_event i k s) (
          put_transfer i (record t { windows = set_window k (record tw { status = v }) t.windows })
            w)
    ]
  ]
]

-- timewindow_start_timer_cb and timewindow_end_timer_cb
pub start_timer_cb : ℕ → ℕ → World → World
start_timer_cb i k w = window_set_status i k started w

pub end_timer_cb : ℕ → ℕ → World → World
end_timer_cb i k w = window_set_status i k ended w

-- transfers_timewindow_set_maxretries and _get_maxretries
unfoldable pub set_maxretries : ℕ → ℕ → ℤ → World → World
set_maxretries i k n w = elim (w.transfers i) [
  | none ↦ w
  | some t ↦ elim (find_window k t.windows) [
    | none ↦ w
    | some tw ↦
        put_transfer i
          (record t { windows = set_window k (record tw { max_retries = n }) t.windows }) w
  ]
]

unfoldable pub get_maxretries : Option TimeWindow → ℤ
get_maxretries none = negsuc 0
get_maxretries (some tw) = tw.max_retries
