-- ===== src/Timers.antt =====
-- src/dmmain/cwmpd_timer.c: the named timers of the daemon. `timer_list` is a list of `TimerItem`s;
-- a timer of libamxp is its address, and the calls into libamxp are the list of `TimerAction`s, in
-- order. An int is its word. A NULL name is the empty text, which each function treats in the same
-- way. Allocation is taken to succeed.
pub mod Resources
pub mod Lookup
pub mod Invariant
pub mod Expiry
mod Examples
use tr069_manager.Base.{
  ℕ, ◌*◌, ◌%◌, ◌^◌, Bool, true, false, not, Option, none, some, List, [], ◌∷◌, ◌++◌, ◌==◌,
  if◌then◌else◌, CString, streq, is_empty,
}

-- timer_list_item; a handler is a number.
pub record TimerItem : Type 0 where
  pub addr : ℕ
  pub name : CString
  pub handler : Option ℕ
  pub interval_timer : Bool

pub data TimerAction : Type 0 where
  amxp_new : ℕ → TimerAction
  amxp_set_interval : ℕ → ℕ → TimerAction
  amxp_start : ℕ → ℕ → TimerAction
  amxp_stop : ℕ → TimerAction
  amxp_delete : ℕ → TimerAction
  run_handler : ℕ → CString → TimerAction  -- the handler with a copy of the name

-- The loop of timer_find.
unfoldable pub find_named : CString → List TimerItem → Option TimerItem
find_named n [] = none
find_named n (x ∷ xs) = let rest = find_named n xs in if streq x.name n then some x else rest

unfoldable pub timer_find : CString → List TimerItem → Option TimerItem
timer_find n l = if is_empty n then none else find_named n l

unfoldable pub timer_find_by_addr : ℕ → List TimerItem → Option TimerItem
timer_find_by_addr a [] = none
timer_find_by_addr a (x ∷ xs) =
    let rest = timer_find_by_addr a xs in if x.addr == a then some x else rest

unfoldable pub timer_free : TimerItem → List TimerAction
timer_free x = amxp_stop x.addr ∷ amxp_delete x.addr ∷ []

unfoldable pub timer_remove : CString → List TimerItem → List TimerItem × List TimerAction
timer_remove n [] = ([], [])
timer_remove n (x ∷ xs) =
    let rest = timer_remove n xs in
    if streq x.name n then (xs, timer_free x) else (x ∷ rest.0, rest.1)

-- What cwmp_timer_remove_all does before it clears the list.
unfoldable pub free_all : List TimerItem → List TimerAction
free_all [] = []
free_all (x ∷ xs) = timer_free x ++ free_all xs

unfoldable pub timer_remove_all : List TimerItem → List TimerItem × List TimerAction
timer_remove_all l = ([], free_all l)

-- timer_timeout_handler of the timer at `a` with the name `n` in its private data
unfoldable pub timer_timeout : ℕ → CString → List TimerItem → List TimerItem × List TimerAction
timer_timeout a n l = elim (timer_find_by_addr a l) [
  | none ↦ (l, [])
  | some x ↦ elim x.handler [
    | none ↦ (l, [])
    | some h ↦
        let removed = timer_remove n l in
        if x.interval_timer
        then (l, run_handler h n ∷ [])
        else (removed.0, removed.1 ++ run_handler h n ∷ [])
  ]
]

unfoldable pub timer_append : List TimerItem → TimerItem → List TimerItem
timer_append l x = l ++ x ∷ []

-- seconds * 1000 as an unsigned int
abbrev pub milliseconds : ℕ → ℕ
milliseconds t = t * 1000 % 2 ^ 32

abbrev pub new_item : ℕ → CString → ℕ → Option ℕ → TimerItem
new_item a n interval h = record {
  addr = a;
  name = n;
  handler = h;
  interval_timer = not (interval == 0);
}

-- cwmp_timer_start, where amxp_timer_new gives the address `a`; true for cwmp_status_ok.
unfoldable pub timer_start :
    ℕ → CString → ℕ → ℕ → Option ℕ → List TimerItem → (List TimerItem × List TimerAction) × Bool
timer_start a n wait interval h l = if is_empty n then ((l, []), false) else elim (timer_find n l) [
  | none ↦ (
    (
      timer_append l (new_item a n interval h),
      amxp_new a
          ∷ ((if interval == 0 then [] else amxp_set_interval a (milliseconds interval) ∷ [])
              ++ amxp_start a (milliseconds wait) ∷ []),
    ),
    true,
  )
  | some x ↦ ((l, amxp_stop x.addr ∷ amxp_start x.addr (milliseconds wait) ∷ []), true)
]

-- cwmp_timer_stop; true for cwmp_status_ok.
unfoldable pub timer_stop : CString → List TimerItem → (List TimerItem × List TimerAction) × Bool
timer_stop n l = elim (timer_find n l) [
  | none ↦ ((l, []), false)
  | some x ↦ let removed = timer_remove n l in ((removed.0, amxp_stop x.addr ∷ removed.1), true)
]

-- cwmp_timer_remainingTime; amxp_timer_remaining_time is an argument.
unfoldable pub timer_remaining_time : (ℕ → ℕ) → CString → List TimerItem → ℕ
timer_remaining_time remaining n l = elim (timer_find n l) [ none ↦ 0 | some x ↦ remaining x.addr ]
