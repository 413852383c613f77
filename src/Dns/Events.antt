-- ===== src/Dns/Events.antt =====
-- The callbacks of the sockets and the timers of dmmain/cwmpd_dns.c, its set-up and its clean-up.
use tr069_manager.Base.{
  ℕ, ◌+◌, Bool, true, false, Option, none, some, List, [], ◌∷◌, ◌++◌, ◌==◌, if◌then◌else◌, is_some,
  is_empty,
}
use tr069_manager.Dns.Defs.{
  Resolver, Answer, failed, process_fd, destroy_channel, Dns, Env, perform,
}
use tr069_manager.Dns.Answer.{take_answer}
use tr069_manager.Dns.Lookup.{find_resolver, on_resolver, start_clean_timer, resolve_cb, resolve}

-- event_list_findby_fd
unfoldable pub find_by_fd : ℕ → List (ℕ × ℕ) → Option (ℕ × ℕ)
find_by_fd fd [] = none
find_by_fd fd (ev ∷ evs) = let rest = find_by_fd fd evs in if ev.0 == fd then some ev else rest

unfoldable pub remove_fd : ℕ → List (ℕ × ℕ) → List (ℕ × ℕ)
remove_fd fd [] = []
remove_fd fd (ev ∷ evs) = let rest = remove_fd fd evs in if ev.0 == fd then evs else ev ∷ rest

unfoldable pub set_flags : ℕ → ℕ → List (ℕ × ℕ) → List (ℕ × ℕ)
set_flags fd flags [] = []
set_flags fd flags (ev ∷ evs) =
    let rest = set_flags fd flags evs in if ev.0 == fd then (fd, flags) ∷ evs else ev ∷ rest

-- cwmp_dns_fd_poll_stop
unfoldable pub poll_stop : ℕ → Resolver → Resolver
poll_stop fd r = record r { fd_events = remove_fd fd r.fd_events }

-- cwmp_dns_fd_poll_start
unfoldable pub poll_start : ℕ → ℕ → Resolver → Resolver
poll_start flags fd r = record r {
  fd_events =
      (if is_some (find_by_fd fd r.fd_events)
        then set_flags fd flags r.fd_events
        else r.fd_events ++ (fd, flags) ∷ []);
}

-- EV_READ is 2 and EV_WRITE is 4.
abbrev pub poll_flags : ℕ → ℕ → ℕ
poll_flags read write = (if read == 0 then 0 else 2) + (if write == 0 then 0 else 4)

-- cwmp_dns_ares_sock_cb
unfoldable pub socket_changed : ℕ → ℕ → ℕ → Resolver → Resolver
socket_changed fd read write r =
    if read + write == 0
    then (if is_empty (poll_stop fd r).fd_events
        then start_clean_timer (poll_stop fd r)
        else poll_stop fd r)
    else record (poll_start (poll_flags read write) fd r) { timeout_timer = true }

-- cwmp_dns_fd_event_cb
unfoldable pub fd_event : ℕ → ℕ → Bool → Bool → Dns → Dns
fd_event id fd readable writable s =
    perform
      (process_fd id (if readable then some fd else none) (if writable then some fd else none)) s

-- resolver_timeout_timer_cb
unfoldable pub timeout_expired : ℕ → Dns → Dns
timeout_expired id s = perform (process_fd id none none) s

-- The list without the resolver at `id`.
unfoldable pub remove_resolver : ℕ → List Resolver → List Resolver
remove_resolver id [] = []
remove_resolver id (r ∷ rs) =
    let rest = remove_resolver id rs in if r.id == id then rs else r ∷ rest

-- resolver_clean of a resolver that is out of the list: ares_destroy fails a query that is pending.
unfoldable pub resolver_clean : Env → Resolver → Dns → Dns
resolver_clean e r s =
    perform (destroy_channel r.id) (if r.pending then take_answer e r.dirty failed s else s)

-- resolver_clean_timer_cb
unfoldable pub clean_expired : Env → ℕ → Dns → Dns
clean_expired e id s = elim (find_resolver id s.resolvers) [
  | none ↦ s
  | some r ↦ resolver_clean e r (record s { resolvers = remove_resolver id s.resolvers })
]

-- dns_ttl_timer_cb: the timer has run out.
unfoldable pub ttl_expired : Env → Dns → Dns
ttl_expired e s = (resolve e false (record s { ttl_timer = none })).0

-- cwmp_dns_init, where ares_library_init succeeds or not; true for cwmp_status_ok.
unfoldable pub dns_init : Bool → Dns → Dns × Bool
dns_init false s = (s, false)
dns_init true s =
    (record s { has_timer = true; ttl_timer = none; ainfo_list = []; resolvers = [] }, true)

unfoldable pub clean_all : Env → List Resolver → Dns → Dns
clean_all e [] s = s
clean_all e (r ∷ rs) s = clean_all e rs (resolver_clean e r s)

-- cwmp_dns_clean
unfoldable pub dns_clean : Env → Dns → Dns
dns_clean e s =
    let s' =
      clean_all e s.resolvers
        (record s { has_timer = false; ttl_timer = none; ainfo_list = []; resolvers = [] }) in
    s'

-- What can happen once the module is set up.
pub data Event : Type 0 where
  resolve_call : Bool → Event
  ttl_timer_expired : Event
  answer_came : ℕ → Answer → Event
  socket_event : ℕ → ℕ → ℕ → ℕ → Event
  fd_ready : ℕ → ℕ → Bool → Bool → Event
  timeout_timer_expired : ℕ → Event
  clean_timer_expired : ℕ → Event

-- c-ares gives an answer only for a query that is pending.
unfoldable pub answer_if_pending : Env → ℕ → Answer → Dns → Dns
answer_if_pending e id answer s = elim (find_resolver id s.resolvers) [
  | none ↦ s
  | some r ↦ if r.pending then resolve_cb e id answer s else s
]

-- The TTL timer expires only where it runs.
unfoldable pub handle : Env → Event → Dns → Dns
handle e (resolve_call changed) s = (resolve e changed s).0
handle e ttl_timer_expired s = if is_some s.ttl_timer then ttl_expired e s else s
handle e (answer_came id answer) s = answer_if_pending e id answer s
handle e (socket_event id fd read write) s = record s {
  resolvers = on_resolver (socket_changed fd read write) id s.resolvers;
}
handle e (fd_ready id fd readable writable) s = fd_event id fd readable writable s
handle e (timeout_timer_expired id) s = timeout_expired id s
handle e (clean_timer_expired id) s = clean_expired e id s

unfoldable pub run_events : List (Env × Event) → Dns → Dns
run_events [] s = s
run_events ((e, event) ∷ events) s = run_events events (handle e event s)
