-- ===== src/Requests/Window.antt =====
-- The list of timestamps against the log of all requests that were let in.
use tr069_manager.Base.{
  ℕ, ◌+◌, ◌*◌, ◌%◌, ◌^◌, ◌≤◌, ◌<◌, ◌≡◌, refl, sym, ap, ◌∙◌, ◌↔◌, inl, inr, Bool, true, false, not,
  ◌&&◌, List, [], ◌∷◌, ◌++◌, arith, leb, if◌then◌else◌, Bool-cases, All, length, filterb,
  length-append, filterb-append,
}
use tr069_manager.Requests.{
  Timestamps, max_connections_add, is_stale, drop_stale, over_limit, max_connections_reached,
  check_availability,
}

-- The two times at which one request is looked at and entered.
pub record Arrival : Type 0 where
  pub now : ℕ
  pub later : ℕ

-- The list of the server, and the times of all requests that were let in.
pub record Logged : Type 0 where
  pub stamps : Timestamps
  pub log : List ℕ

unfoldable pub receive : ℕ × ℕ → Logged → Arrival → Logged
receive limits s a =
    let (l, ok) = check_availability a.now a.later limits s.stamps in
    record { stamps = l; log = if ok then s.log ++ a.later ∷ [] else s.log }

unfoldable pub receive_all : ℕ × ℕ → Logged → List Arrival → Logged
receive_all limits s [] = s
receive_all limits s (a ∷ more) = receive_all limits (receive limits s a) more

-- The clock does not run backwards.
abbrev pub Chronological : ℕ → List Arrival → Type 0
Chronological t [] = Unit
Chronological t (a ∷ more) = (t ≤ a.now) × (a.now ≤ a.later) × Chronological a.later more

abbrev pub last_time : ℕ → List Arrival → ℕ
last_time t [] = t
last_time t (a ∷ more) = last_time a.later more

-- How many of the times lie in the `fc` seconds up to `now`.
abbrev pub recent : ℕ → ℕ → ℕ → Bool
recent now fc t = leb t now && leb now (t + fc)

abbrev pub count_recent : ℕ → ℕ → List ℕ → ℕ
count_recent now fc l = length (filterb (recent now fc) l)

stale-recent : (now fc t : ℕ) → fc < 2 ^ 31 → is_stale now fc t ≡ not (recent now fc t)
unfolding is_stale
stale-recent now fc t h = ground arith

drop_stale-filter :
    (now fc : ℕ) (l : List ℕ) → fc < 2 ^ 31 → drop_stale now fc l ≡ filterb (recent now fc) l
unfolding drop_stale
drop_stale-filter now fc [] h = refl
drop_stale-filter now fc (t ∷ l) h =
    ground (arith, stale-recent now fc t h, drop_stale-filter now fc l h)

-- What is in a later window was in the earlier one, or came after it.
filter-filter :
    (now now' fc : ℕ) (l : List ℕ)
    → now ≤ now'
    → All (λ t. t ≤ now) l
    → filterb (recent now' fc) (filterb (recent now fc) l) ≡ filterb (recent now' fc) l
filter-filter now now' fc [] h k = refl
filter-filter now now' fc (t ∷ l) h k = ground (arith, filter-filter now now' fc l h k.1, k.0)

All-le : (s t : ℕ) (l : List ℕ) → s ≤ t → All (λ x. x ≤ s) l → All (λ x. x ≤ t) l
All-le s t [] h k = tt
All-le s t (x ∷ l) h k = (omega arith, All-le s t l h k.1)

All-filter :
    (p : ℕ → Bool) (s : ℕ) (l : List ℕ) → All (λ x. x ≤ s) l → All (λ x. x ≤ s) (filterb p l)
All-filter p s [] k = tt
All-filter p s (x ∷ l) k = ground (arith, All-filter p s l k.1, k.0)

All-snoc : (s : ℕ) (l : List ℕ) → All (λ x. x ≤ s) l → All (λ x. x ≤ s) (l ++ s ∷ [])
All-snoc s [] k = (omega arith, tt)
All-snoc s (x ∷ l) k = (k.0, All-snoc s l k.1)

-- At time `t` and from then on the list stands for the log, and it is one entry above the limit at
-- most.
record Agrees (mc fc t : ℕ) (s : Logged) : Type 0 where
  past : All (λ x. x ≤ t) s.stamps
  same : (now : ℕ) → t ≤ now → filterb (recent now fc) s.stamps ≡ filterb (recent now fc) s.log
  bounded : length s.stamps ≤ 2 * mc % 2 ^ 32 + 1

length-filter-le : (p : ℕ → Bool) (l : List ℕ) → length (filterb p l) ≤ length l
length-filter-le p [] = omega arith
length-filter-le p (x ∷ l) = ground (arith, length-filter-le p l)

module _ (mc fc t : ℕ) (s : Logged) (a : Arrival) (small : fc < 2 ^ 31) (h : t ≤ a.now)
    (k : a.now ≤ a.later) (inv : Agrees mc fc t s) where
  kept : List ℕ
  kept = filterb (recent a.now fc) s.stamps

  kept-past : All (λ x. x ≤ a.later) kept
  unfolding kept
  kept-past = All-filter _ a.later s.stamps (All-le t a.later s.stamps (omega arith) inv.past)

  kept-same :
      (now : ℕ) → a.later ≤ now → filterb (recent now fc) kept ≡ filterb (recent now fc) s.log
  unfolding kept
  kept-same now le =
      filter-filter a.now now fc s.stamps (omega arith) (All-le t a.now s.stamps h inv.past)
      ∙ inv.same now (omega arith)

  receive-refused :
      over_limit mc kept ≡ true → Agrees mc fc a.later (record { stamps = kept; log = s.log })
  unfolding kept
  receive-refused e = record {
    past = kept-past;
    same = kept-same;
    bounded = omega (arith, length-filter-le (recent a.now fc) s.stamps, inv.bounded);
  }

  receive-admitted :
      over_limit mc kept ≡ false
      → Agrees mc fc a.later (record { stamps = kept ++ a.later ∷ []; log = s.log ++ a.later ∷ [] })
  unfolding over_limit
  receive-admitted e = record {
    past = All-snoc a.later kept kept-past;
    same = λ now le.
        filterb-append (recent now fc) kept (a.later ∷ [])
        ∙ ap (λ l. l ++ filterb (recent now fc) (a.later ∷ [])) (kept-same now le)
        ∙ sym (filterb-append (recent now fc) s.log (a.later ∷ []));
    bounded = ground (arith, length-append kept (a.later ∷ []), e);
  }

  receive-Agrees : Agrees mc fc a.later (receive (mc, fc) s a)
  unfolding receive check_availability max_connections_reached kept max_connections_add
  receive-Agrees =
      rw (drop_stale-filter a.now fc s.stamps small) (elim (Bool-cases (over_limit mc kept)) [
        | inl e ↦ rw e (receive-refused e)
        | inr e ↦ rw e (receive-admitted e)
      ])

receive_all-Agrees :
    (mc fc t : ℕ) (s : Logged) (arrivals : List Arrival)
    → fc < 2 ^ 31
    → Chronological t arrivals
    → Agrees mc fc t s
    → Agrees mc fc (last_time t arrivals) (receive_all (mc, fc) s arrivals)
unfolding receive_all
receive_all-Agrees mc fc t s [] small c inv = inv
receive_all-Agrees mc fc t s (a ∷ more) small c inv =
    receive_all-Agrees mc fc a.later (receive (mc, fc) s a) more small c.2
      (receive-Agrees mc fc t s a small c.0 c.1 inv)

abbrev pub started : Logged
started = record { stamps = []; log = [] }

started-Agrees : (mc fc : ℕ) → Agrees mc fc 0 started
started-Agrees mc fc = record { past = tt; same = λ now h. refl; bounded = omega arith }

-- After any requests under a clock that does not run backwards, at no time from then on do more
-- than 2 * mc + 1 of the requests that were let in lie in the last `fc` seconds (2 * mc wraps at
-- 32 bits; `fc` is not negative as an int).
pub count_recent-le :
    (mc fc : ℕ) (arrivals : List Arrival) (now : ℕ)
    → fc < 2 ^ 31
    → Chronological 0 arrivals
    → last_time 0 arrivals ≤ now
    → count_recent now fc (receive_all (mc, fc) started arrivals).log ≤ 2 * mc % 2 ^ 32 + 1
count_recent-le mc fc arrivals now small c le =
    let inv = receive_all-Agrees mc fc 0 started arrivals small c (started-Agrees mc fc) in
    let s = receive_all (mc, fc) started arrivals in
    omega
      (arith, inv.bounded, length-filter-le (recent now fc) s.stamps, ap length (inv.same now le))

-- Under the same conditions the next request is let in exactly when at most 2 * mc of the earlier
-- ones that were let in lie in the last `fc` seconds.
pub admitted_iff :
    (mc fc : ℕ) (arrivals : List Arrival) (a : Arrival)
    → fc < 2 ^ 31
    → Chronological 0 arrivals
    → last_time 0 arrivals ≤ a.now
    → let s = receive_all (mc, fc) started arrivals in
      ((check_availability a.now a.later (mc, fc) s.stamps).1 ≡ true)
      ↔ (count_recent a.now fc s.log ≤ 2 * mc % 2 ^ 32)
unfolding check_availability max_connections_reached over_limit
admitted_iff mc fc arrivals a small c le =
    let inv = receive_all-Agrees mc fc 0 started arrivals small c (started-Agrees mc fc) in
    let s = receive_all (mc, fc) started arrivals in
    rw (drop_stale-filter a.now fc s.stamps small, inv.same a.now le) (ground arith, ground arith)
