-- ===== src/Timers/Invariant.antt =====
-- The names of the timers of dmmain/cwmpd_timer.c stay distinct.
use tr069_manager.Base.{
  ℕ, ◌≡◌, refl, ◌⊎◌, inl, inr, false, Option, none, List, [], ◌∷◌, ◌++◌, arith, Bool-cases,
  Option-cases, CString, streq, streq_sym, is_empty,
}
use tr069_manager.Timers.{
  TimerItem, find_named, timer_find, timer_remove, timer_remove_all, timer_timeout, timer_append,
  new_item, timer_start, timer_stop,
}
use tr069_manager.Timers.Lookup.{find_named-append, IsDistinct}
use tr069_manager.Timers.Resources.{
  TimerCall, start_call, stop_call, timeout_call, remove_all_call, run_call, run_calls,
}

append-IsDistinct :
    (l : List TimerItem) (x : TimerItem)
    → IsDistinct l
    → find_named x.name l ≡ none
    → IsDistinct (l ++ x ∷ [])
unfolding find_named
append-IsDistinct [] x d f = (refl, tt)
append-IsDistinct (y ∷ ys) x d f =
    let other : streq y.name x.name ≡ false = ground (arith, f) in
    (
      ground (arith, find_named-append y.name ys x, streq_sym y.name x.name other, d.0),
      append-IsDistinct ys x d.1 (ground (arith, f, other)),
    )

removed_none :
    (n m : CString) (l : List TimerItem)
    → find_named m l ≡ none
    → find_named m (timer_remove n l).0 ≡ none
unfolding find_named timer_remove
removed_none n m [] f = refl
removed_none n m (x ∷ xs) f = ground (arith, f, removed_none n m xs (ground (arith, f)))

remove-IsDistinct :
    (n : CString) (l : List TimerItem) → IsDistinct l → IsDistinct (timer_remove n l).0
unfolding timer_remove
remove-IsDistinct n [] d = tt
remove-IsDistinct n (x ∷ xs) d = elim (Bool-cases (streq x.name n)) [
  | inl s ↦ rw s d.1
  | inr s ↦ rw s (removed_none n x.name xs d.0, remove-IsDistinct n xs d.1)
]

start-IsDistinct :
    (a : ℕ) (n : CString) (wait interval : ℕ) (h : Option ℕ) (l : List TimerItem)
    → IsDistinct l
    → IsDistinct (timer_start a n wait interval h l).0.0
unfolding timer_start timer_append timer_find
start-IsDistinct a n wait interval h l d = elim (Bool-cases (is_empty n)) [
  | inl e ↦ rw e d
  | inr e ↦ elim (Option-cases (find_named n l)) [
    | inl f ↦ rw (e, f) (append-IsDistinct l (new_item a n interval h) d f)
    | inr (x, f) ↦ rw (e, f) d
  ]
]

-- What a stop or an expiry does to the list.
stop_list :
    (n : CString) (l : List TimerItem)
    → ((timer_stop n l).0.0 ≡ l) ⊎ ((timer_stop n l).0.0 ≡ (timer_remove n l).0)
unfolding timer_stop
stop_list n l = ground arith

timeout_list :
    (a : ℕ) (n : CString) (l : List TimerItem)
    → ((timer_timeout a n l).0 ≡ l) ⊎ ((timer_timeout a n l).0 ≡ (timer_remove n l).0)
unfolding timer_timeout
timeout_list a n l = ground arith

stop-IsDistinct :
    (n : CString) (l : List TimerItem) → IsDistinct l → IsDistinct (timer_stop n l).0.0
stop-IsDistinct n l d = elim (stop_list n l) [
  | inl e ↦ rw e d
  | inr e ↦ rw e (remove-IsDistinct n l d)
]

timeout-IsDistinct :
    (a : ℕ) (n : CString) (l : List TimerItem) → IsDistinct l → IsDistinct (timer_timeout a n l).0
timeout-IsDistinct a n l d = elim (timeout_list a n l) [
  | inl e ↦ rw e d
  | inr e ↦ rw e (remove-IsDistinct n l d)
]

-- Any calls, in any order, leave the names of the timers distinct.
pub run_calls-IsDistinct :
    (calls : List TimerCall) (l : List TimerItem) → IsDistinct l → IsDistinct (run_calls calls l).0
unfolding run_calls run_call timer_remove_all
run_calls-IsDistinct [] l d = d
run_calls-IsDistinct (start_call a n wait interval h ∷ calls) l d =
    run_calls-IsDistinct calls _ (start-IsDistinct a n wait interval h l d)
run_calls-IsDistinct (stop_call n ∷ calls) l d =
    run_calls-IsDistinct calls _ (stop-IsDistinct n l d)
run_calls-IsDistinct (timeout_call a n ∷ calls) l d =
    run_calls-IsDistinct calls _ (timeout-IsDistinct a n l d)
run_calls-IsDistinct (remove_all_call ∷ calls) l d = run_calls-IsDistinct calls [] tt
