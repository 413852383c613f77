-- ===== src/Timers/Resources.antt =====
-- What dmmain/cwmpd_timer.c allocates and frees.
use tr069_manager.Base.{
  ℕ, ◌+◌, ◌≡◌, refl, inl, inr, Option, List, [], ◌∷◌, ◌++◌, arith, ◌==◌, if◌then◌else◌,
  Option-cases, CString,
}
use tr069_manager.Timers.{
  TimerItem, TimerAction, amxp_new, amxp_set_interval, amxp_start, amxp_stop, amxp_delete,
  run_handler, timer_find_by_addr, timer_free, timer_remove, free_all, timer_remove_all,
  timer_timeout, timer_append, new_item, timer_start, timer_stop,
}

pub data TimerCall : Type 0 where
  start_call : ℕ → CString → ℕ → ℕ → Option ℕ → TimerCall
  stop_call : CString → TimerCall
  timeout_call : ℕ → CString → TimerCall
  remove_all_call : TimerCall

unfoldable pub run_call : TimerCall → List TimerItem → List TimerItem × List TimerAction
run_call (start_call a n wait interval h) l = (timer_start a n wait interval h l).0
run_call (stop_call n) l = (timer_stop n l).0
run_call (timeout_call a n) l = timer_timeout a n l
run_call remove_all_call l = timer_remove_all l

-- A run of calls, with all that is called in libamxp.
unfoldable pub run_calls : List TimerCall → List TimerItem → List TimerItem × List TimerAction
run_calls [] l = (l, [])
run_calls (call ∷ calls) l =
    let (l', actions) = run_call call l in
    let rest = run_calls calls l' in (rest.0, actions ++ rest.1)

-- How many items of a list have the timer at `a`.
unfoldable pub held : ℕ → List TimerItem → ℕ
held a [] = 0
held a (x ∷ xs) = (if x.addr == a then 1 else 0) + held a xs

abbrev makes : ℕ → TimerAction → ℕ
makes a (amxp_new b) = if b == a then 1 else 0
makes a (amxp_set_interval b t) = 0
makes a (amxp_start b t) = 0
makes a (amxp_stop b) = 0
makes a (amxp_delete b) = 0
makes a (run_handler h n) = 0

abbrev deletes : ℕ → TimerAction → ℕ
deletes a (amxp_new b) = 0
deletes a (amxp_set_interval b t) = 0
deletes a (amxp_start b t) = 0
deletes a (amxp_stop b) = 0
deletes a (amxp_delete b) = if b == a then 1 else 0
deletes a (run_handler h n) = 0

-- How often a list of calls makes and deletes the timer at `a`.
unfoldable pub made : ℕ → List TimerAction → ℕ
made a [] = 0
made a (act ∷ acts) = makes a act + made a acts

unfoldable pub deleted : ℕ → List TimerAction → ℕ
deleted a [] = 0
deleted a (act ∷ acts) = deletes a act + deleted a acts

made-append : (a : ℕ) (xs ys : List TimerAction) → made a (xs ++ ys) ≡ made a xs + made a ys
unfolding made
made-append a [] ys = omega arith
made-append a (x ∷ xs) ys = omega (arith, made-append a xs ys)

deleted-append :
    (a : ℕ) (xs ys : List TimerAction) → deleted a (xs ++ ys) ≡ deleted a xs + deleted a ys
unfolding deleted
deleted-append a [] ys = omega arith
deleted-append a (x ∷ xs) ys = omega (arith, deleted-append a xs ys)

held-append : (a : ℕ) (xs ys : List TimerItem) → held a (xs ++ ys) ≡ held a xs + held a ys
unfolding held
held-append a [] ys = omega arith
held-append a (x ∷ xs) ys = omega (arith, held-append a xs ys)

-- Nothing is lost between two lists of timers by what is called.
abbrev pub Balances : ℕ → List TimerItem → List TimerItem × List TimerAction → Type 0
Balances a l r = held a l + made a r.1 ≡ held a r.0 + deleted a r.1

timer_remove-Balances : (a : ℕ) (n : CString) (l : List TimerItem) → Balances a l (timer_remove n l)
unfolding timer_remove timer_free held made deleted
timer_remove-Balances a n [] = refl
timer_remove-Balances a n (x ∷ xs) = ground (arith, timer_remove-Balances a n xs)

free_all-Balances : (a : ℕ) (l : List TimerItem) → Balances a l ([], free_all l)
unfolding free_all timer_free held made deleted
free_all-Balances a [] = refl
free_all-Balances a (x ∷ xs) = ground (arith, free_all-Balances a xs)

start-Balances :
    (a b : ℕ) (n : CString) (wait interval : ℕ) (h : Option ℕ) (l : List TimerItem)
    → Balances a l (timer_start b n wait interval h l).0
unfolding timer_start timer_append held made deleted
start-Balances a b n wait interval h l =
    ground (arith, held-append a l (new_item b n interval h ∷ []))

stop-Balances : (a : ℕ) (n : CString) (l : List TimerItem) → Balances a l (timer_stop n l).0
unfolding timer_stop made deleted
stop-Balances a n l = ground (arith, timer_remove-Balances a n l)

timeout-Balances : (a b : ℕ) (n : CString) (l : List TimerItem) → Balances a l (timer_timeout b n l)
unfolding timer_timeout made deleted
timeout-Balances a b n l = elim (Option-cases (timer_find_by_addr b l)) [
  | inl none_found ↦ ground (arith, none_found)
  | inr (x, found) ↦ elim (Option-cases x.handler) [
    | inl no_handler ↦ ground (arith, found, no_handler)
    | inr (h, handler) ↦
        let removed = timer_remove n l in
        let acts : List TimerAction = run_handler h n ∷ [] in
        ground (
          arith,
          found,
          handler,
          timer_remove-Balances a n l,
          made-append a removed.1 acts,
          deleted-append a removed.1 acts,
        )
  ]
]

call-Balances : (a : ℕ) (call : TimerCall) (l : List TimerItem) → Balances a l (run_call call l)
unfolding run_call timer_remove_all
call-Balances a (start_call b n wait interval h) l = start-Balances a b n wait interval h l
call-Balances a (stop_call n) l = stop-Balances a n l
call-Balances a (timeout_call b n) l = timeout-Balances a b n l
call-Balances a remove_all_call l = free_all-Balances a l

-- Over any calls, in any order, a timer of libamxp is deleted exactly as often as it was held by the
-- list at first or was made since, less the times that the list holds it in the end: no timer is
-- lost, and none is deleted twice.
pub run_calls-Balances :
    (a : ℕ) (calls : List TimerCall) (l : List TimerItem) → Balances a l (run_calls calls l)
unfolding run_calls made deleted
run_calls-Balances a [] l = refl
run_calls-Balances a (call ∷ calls) l =
    let r = run_call call l in
    let rest = run_calls calls r.0 in
    omega (
      arith,
      call-Balances a call l,
      run_calls-Balances a calls r.0,
      made-append a r.1 rest.1,
      deleted-append a r.1 rest.1,
    )
