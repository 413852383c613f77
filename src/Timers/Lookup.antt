-- ===== src/Timers/Lookup.antt =====
-- The timers of dmmain/cwmpd_timer.c as a dictionary of names.
use mathlib.Core.Option
use tr069_manager.Base.{
  ℕ, ◌≡◌, refl, sym, ap, ◌∙◌, inl, inr, false, Option, none, some, List, [], ◌∷◌, ◌++◌, arith,
  if◌then◌else◌, Bool-cases, CString, streq, streq_refl, streq→eq, is_empty,
}
use tr069_manager.Timers.{
  TimerItem, find_named, timer_find, timer_remove, timer_append, new_item, timer_start, timer_stop,
}

pub find_named-append :
    (m : CString) (l : List TimerItem) (x : TimerItem)
    → find_named m (l ++ x ∷ []) ≡ (elim (find_named m l) as (λ y. Option TimerItem) [
      | none ↦ if streq x.name m then some x else none
      | some y ↦ some y
    ])
unfolding find_named
find_named-append m [] x = refl
find_named-append m (y ∷ ys) x = ground (arith, find_named-append m ys x)

start_same :
    (a : ℕ) (n : CString) (wait interval : ℕ) (h : Option ℕ) (l : List TimerItem)
    → is_empty n ≡ false
    → timer_find n (timer_start a n wait interval h l).0.0
      ≡ some (Option.get_or (timer_find n l) (new_item a n interval h))
unfolding timer_start timer_find timer_append
start_same a n wait interval h l name =
    ground (arith, name, streq_refl n, find_named-append n l (new_item a n interval h))

start_other :
    (a : ℕ) (n m : CString) (wait interval : ℕ) (h : Option ℕ) (l : List TimerItem)
    → streq n m ≡ false
    → timer_find m (timer_start a n wait interval h l).0.0 ≡ timer_find m l
unfolding timer_start timer_find timer_append
start_other a n m wait interval h l other =
    ground (arith, other, find_named-append m l (new_item a n interval h))

-- After a start of a timer with a name, that name has the timer that it had before, with its handler
-- and its kind whatever the arguments are, or else a new one of the arguments; every other name has
-- what it had.
pub timer_find-timer_start :
    (a : ℕ) (n m : CString) (wait interval : ℕ) (h : Option ℕ) (l : List TimerItem)
    → is_empty n ≡ false
    → timer_find m (timer_start a n wait interval h l).0.0 ≡ (
        if streq n m
        then some (Option.get_or (timer_find n l) (new_item a n interval h))
        else timer_find m l)
timer_find-timer_start a n m wait interval h l name = elim (Bool-cases (streq n m)) [
  | inl s ↦
      let l' = (timer_start a n wait interval h l).0.0 in
      rw s
        (ap (λ k. timer_find k l') (sym (streq→eq n m s)) ∙ start_same a n wait interval h l name)
  | inr s ↦ rw s (start_other a n m wait interval h l s)
]

-- No two timers have the same name.
abbrev pub IsDistinct : List TimerItem → Type 0
IsDistinct [] = Unit
IsDistinct (x ∷ xs) = (find_named x.name xs ≡ none) × IsDistinct xs

pub removed_other :
    (n m : CString) (l : List TimerItem)
    → streq n m ≡ false
    → find_named m (timer_remove n l).0 ≡ find_named m l
unfolding find_named timer_remove
removed_other n m [] other = refl
removed_other n m (x ∷ xs) other = elim (Bool-cases (streq x.name n)) [
  | inl s ↦ ground (arith, s, ap (λ k. streq k m) (streq→eq x.name n s), other)
  | inr s ↦ ground (arith, s, removed_other n m xs other)
]

pub removed_same :
    (n : CString) (l : List TimerItem) → IsDistinct l → find_named n (timer_remove n l).0 ≡ none
unfolding find_named timer_remove
removed_same n [] d = refl
removed_same n (x ∷ xs) d = elim (Bool-cases (streq x.name n)) [
  | inl s ↦ ground (arith, s, ap (λ k. find_named k xs) (streq→eq x.name n s), d.0)
  | inr s ↦ ground (arith, s, removed_same n xs d.1)
]

stop_same :
    (n : CString) (l : List TimerItem) → IsDistinct l → timer_find n (timer_stop n l).0.0 ≡ none
unfolding timer_stop timer_find
stop_same n l d = ground (arith, removed_same n l d)

-- A stop in a list with distinct names takes the name out of it and leaves every other name what it
-- had.
pub timer_find-timer_stop :
    (n m : CString) (l : List TimerItem)
    → IsDistinct l
    → timer_find m (timer_stop n l).0.0 ≡ (if streq n m then none else timer_find m l)
unfolding timer_stop timer_find
timer_find-timer_stop n m l d = elim (Bool-cases (streq n m)) [
  | inl s ↦
      let l' = (timer_stop n l).0.0 in
      rw s (ap (λ k. timer_find k l') (sym (streq→eq n m s)) ∙ stop_same n l d)
  | inr s ↦ ground (arith, s, removed_other n m l s)
]
