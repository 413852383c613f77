-- ===== src/Timers/Examples.antt =====
-- Runs of the named timers, and their theorems at concrete timers.
use tr069_manager.Base.{◌≡◌, refl, none, some, List, [], ◌∷◌, codes, streq}
use tr069_manager.Timers.{
  TimerItem, amxp_stop, amxp_delete, run_handler, find_named, timer_find, timer_find_by_addr,
  timer_free, timer_remove, timer_timeout, timer_append, new_item, timer_start, timer_stop,
}
use tr069_manager.Timers.Resources.{
  TimerCall, start_call, stop_call, timeout_call, run_call, run_calls, Balances, run_calls-Balances,
}
use tr069_manager.Timers.Lookup.{timer_find-timer_start, IsDistinct, timer_find-timer_stop}
use tr069_manager.Timers.Invariant.{run_calls-IsDistinct}
use tr069_manager.Timers.Expiry.{timer_timeout_lem}

abbrev session_item : TimerItem
session_item = new_item 1 (codes "Session-timer") 0 (some 10)

abbrev inform_item : TimerItem
inform_item = new_item 2 (codes "inform") 60 (some 11)

abbrev two_timers : List TimerItem
two_timers = session_item ∷ inform_item ∷ []

two-IsDistinct : IsDistinct two_timers
unfolding find_named streq
two-IsDistinct = (refl, (refl, tt))

-- The session timer is started again, stopped, and a third timer expires.
abbrev calls : List TimerCall
calls =
    start_call 3 (codes "Session-timer") 45 0 (some 10)
    ∷ stop_call (codes "Session-timer")
    ∷ start_call 4 (codes "retry") 0 0 (some 12)
    ∷ timeout_call 4 (codes "retry")
    ∷ []

calls_test : (run_calls calls two_timers).0 ≡ inform_item ∷ []
unfolding run_calls run_call timer_start timer_stop timer_timeout timer_find find_named
    timer_find_by_addr timer_remove timer_append streq
calls_test = refl

run_calls-Balances_example : Balances 4 two_timers (run_calls calls two_timers)
run_calls-Balances_example = run_calls-Balances 4 calls two_timers

run_calls-IsDistinct_test : IsDistinct (run_calls calls two_timers).0
run_calls-IsDistinct_test = run_calls-IsDistinct calls two_timers two-IsDistinct

timer_find-timer_start_test :
    timer_find (codes "inform") (timer_start 5 (codes "inform") 9 0 (some 99) two_timers).0.0
    ≡ some inform_item
unfolding streq timer_find find_named
timer_find-timer_start_test =
    timer_find-timer_start 5 (codes "inform") (codes "inform") 9 0 (some 99) two_timers refl

timer_find-timer_stop_test :
    timer_find (codes "inform") (timer_stop (codes "inform") two_timers).0.0 ≡ none
unfolding streq
timer_find-timer_stop_test =
    timer_find-timer_stop (codes "inform") (codes "inform") two_timers two-IsDistinct

timer_timeout_lem_test :
    let r = timer_timeout 1 (codes "Session-timer") two_timers in
    (timer_find (codes "Session-timer") r.0 ≡ none)
    × (r.1 ≡ amxp_stop 1 ∷ amxp_delete 1 ∷ run_handler 10 (codes "Session-timer") ∷ [])
unfolding timer_find_by_addr timer_free
timer_timeout_lem_test =
    timer_timeout_lem 1 10 two_timers session_item two-IsDistinct refl refl refl
