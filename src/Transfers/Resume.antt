-- ===== src/Transfers/Resume.antt =====
-- What a time window loses by being saved and started again.
use tr069_manager.Base.{ℕ, ◌+◌, ◌*◌, ◌^◌, ◌≤◌, ◌<◌, ◌≡◌, refl, ◌↔◌, none, some, arith}
use tr069_manager.Transfers.Defs.{
  WindowStatus, started, Timer, Timers, TimeWindow, window_status_of_text,
}
use tr069_manager.Transfers.Window.{
  get_time_offset, remaining_time, internal_add_info, internal_del_info, internal_start,
  internal_save,
}

-- What is left of the two timers.
abbrev pub start_left : TimeWindow → ℕ
start_left tw = elim tw.timers [ none ↦ 0 | some i ↦ remaining_time i.start_timer ]

abbrev pub end_left : TimeWindow → ℕ
end_left tw = elim tw.timers [ none ↦ 0 | some i ↦ remaining_time i.end_timer ]

-- The program stops, and starts again with what the data model kept.
unfoldable pub restart : TimeWindow → TimeWindow
restart tw = internal_start (internal_add_info (internal_del_info (internal_save tw)))

idle_text : window_status_of_text "Idle" ≡ WindowStatus.idle
unfolding window_status_of_text
idle_text = refl

started_text : window_status_of_text "Started" ≡ started
unfolding window_status_of_text
started_text = refl

abbrev pub KeepsTime : ℕ → ℕ → Type 0
KeepsTime before after = (after ≤ before) × (before < after + 1000)

-- A window that waits for its start, saved and started again, has its two timers back at less than
-- one second below what was left, which is a uint32_t.
pub restart-KeepsTime :
    (tw : TimeWindow) (i : Timers) (a b : ℕ)
    → tw.timers ≡ some i
    → tw.status ≡ "Idle"
    → i.start_timer ≡ some (some a)
    → i.end_timer ≡ some (some b)
    → a < 2 ^ 32
    → b < 2 ^ 32
    → KeepsTime a (start_left (restart tw)) × KeepsTime b (end_left (restart tw))
unfolding restart internal_start internal_add_info internal_del_info internal_save get_time_offset
restart-KeepsTime tw i a b t s st e ha hb = ground (arith, idle_text, t, e, s, st)

-- A window that has started, saved and started again, has its end timer back at less than one
-- second below what was left, a uint32_t, and no timer for a start.
pub restart_started :
    (tw : TimeWindow) (i : Timers) (b : ℕ)
    → tw.timers ≡ some i
    → tw.status ≡ "Started"
    → i.end_timer ≡ some (some b)
    → b < 2 ^ 32
    → KeepsTime b (end_left (restart tw)) × (start_left (restart tw) ≡ 0)
unfolding restart internal_start internal_add_info internal_del_info internal_save get_time_offset
restart_started tw i b t s e hb =
    (ground (arith, started_text, t, e, s), ground (arith, started_text, t, e, s))

-- The timer of a waiting window is armed with the window's offset in milliseconds exactly where that
-- is at most 4294967 seconds; from 4294968 seconds on it starts earlier.
pub start_left_iff :
    (tw : TimeWindow) (i : Timers) (x : Timer)
    → tw.timers ≡ some i
    → tw.status ≡ "Idle"
    → i.start_timer ≡ some x
    → let left = start_left (internal_start tw) in
      ((left ≡ tw.window_start * 1000) ↔ (tw.window_start ≤ 4294967))
      × (left ≤ tw.window_start * 1000)
unfolding internal_start get_time_offset
start_left_iff tw i x t s st = (
  (λ e. ground (arith, idle_text, t, s, st, e), λ h. ground (arith, idle_text, t, s, st, h)),
  ground (arith, idle_text, t, s, st),
)
