-- ===== src/Timers/Expiry.antt =====
-- What the expiry of a timer does (timer_timeout_handler in dmmain/cwmpd_timer.c).
use tr069_manager.Base.{
  ℕ, ◌≡◌, inl, inr, false, none, some, List, [], ◌∷◌, ◌++◌, arith, ◌==◌, if◌then◌else◌, Bool-cases,
  CString, streq, streq_refl, streq_sym, is_empty,
}
use tr069_manager.Timers.{
  TimerItem, run_handler, find_named, timer_find, timer_find_by_addr, timer_free, timer_remove,
  timer_timeout,
}
use tr069_manager.Timers.Lookup.{IsDistinct, removed_same}

absent_name :
    (a : ℕ) (n : CString) (l : List TimerItem) (x : TimerItem)
    → timer_find_by_addr a l ≡ some x
    → find_named n l ≡ none
    → streq x.name n ≡ false
unfolding timer_find_by_addr find_named
absent_name a n [] x found absent = ground (arith, found)
absent_name a n (y ∷ ys) x found absent = elim (Bool-cases (y.addr == a)) [
  | inl s ↦ ground (arith, s, found, absent)
  | inr s ↦ absent_name a n ys x (ground (arith, s, found)) (ground (arith, absent))
]

removed_actions :
    (a : ℕ) (l : List TimerItem) (x : TimerItem)
    → IsDistinct l
    → timer_find_by_addr a l ≡ some x
    → (timer_remove x.name l).1 ≡ timer_free x
unfolding timer_find_by_addr timer_remove
removed_actions a [] x d found = ground (arith, found)
removed_actions a (y ∷ ys) x d found = elim (Bool-cases (y.addr == a)) [
  | inl s ↦ ground (arith, s, found, streq_refl x.name)
  | inr s ↦
      let later : timer_find_by_addr a ys ≡ some x = ground (arith, s, found) in
      ground (
        arith,
        removed_actions a ys x d.1 later,
        streq_sym x.name y.name (absent_name a y.name ys x later d.0),
      )
]

-- When a timer of the list with a handler expires, its name being that in its private data, the
-- handler is called once with that name and nothing else is; an interval timer stays in the list,
-- and a single one is stopped, deleted and out of the list before its handler runs.
pub timer_timeout_lem :
    (a h : ℕ) (l : List TimerItem) (x : TimerItem)
    → IsDistinct l
    → timer_find_by_addr a l ≡ some x
    → x.handler ≡ some h
    → is_empty x.name ≡ false
    → let r = timer_timeout a x.name l in
      (timer_find x.name r.0 ≡ (if x.interval_timer then timer_find x.name l else none))
      × (r.1 ≡ (if x.interval_timer then [] else timer_free x) ++ run_handler h x.name ∷ [])
unfolding timer_timeout timer_find
timer_timeout_lem a h l x d found handler name = (
  ground (arith, found, handler, name, removed_same x.name l d),
  ground (arith, found, handler, removed_actions a l x d found),
)
