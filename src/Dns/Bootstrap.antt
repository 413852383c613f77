-- ===== src/Dns/Bootstrap.antt =====
-- How often the bootstrap is sent (dmmain/cwmpd_dns.c).
use tr069_manager.Base.{
  ℕ, ◌+◌, ◌≤◌, ◌≡◌, refl, inl, inr, Bool, true, false, ◌||◌, none, some, List, [], ◌∷◌, ◌++◌, arith,
  if◌then◌else◌, Bool-cases, Option-cases, CString, is_empty,
}
use tr069_manager.Dns.Defs.{
  Answer, failed, found, Action, set_ip_list, bootstrap_inform, query, process_fd, destroy_channel,
  Dns, Env, perform, arm, retry_delay,
}
use tr069_manager.Dns.Answer.{ip_list_text, send_pending_bootstrap, take_answer}
use tr069_manager.Dns.Lookup.{
  find_resolver, on_resolver, answered, resolve_cb, get_aifamily, new_resolver, resolver_create,
  ares_resolution, set_static_ip, forget_addresses, drop_lookups, resolve_host, get_host, resolve,
}
use tr069_manager.Dns.Reading.{listed, after_answer, take_answer-found}
use tr069_manager.Dns.Events.{
  fd_event, timeout_expired, remove_resolver, resolver_clean, clean_expired, ttl_expired, Event,
  resolve_call, ttl_timer_expired, answer_came, socket_event, fd_ready, timeout_timer_expired,
  clean_timer_expired, answer_if_pending, handle, run_events,
}

abbrev is_bootstrap : Action → ℕ
is_bootstrap bootstrap_inform = 1
is_bootstrap (set_ip_list text) = 0
is_bootstrap (query id host family) = 0
is_bootstrap (process_fd id read write) = 0
is_bootstrap (destroy_channel id) = 0

-- How many bootstraps a log has.
unfoldable pub bootstraps : List Action → ℕ
bootstraps [] = 0
bootstraps (a ∷ acts) = is_bootstrap a + bootstraps acts

bootstraps-append : (xs ys : List Action) → bootstraps (xs ++ ys) ≡ bootstraps xs + bootstraps ys
unfolding bootstraps
bootstraps-append [] ys = omega arith
bootstraps-append (x ∷ xs) ys = omega (arith, bootstraps-append xs ys)

bootstraps-one :
    (xs : List Action) (a : Action) → bootstraps (xs ++ a ∷ []) ≡ bootstraps xs + is_bootstrap a
unfolding bootstraps
bootstraps-one xs a = omega (arith, bootstraps-append xs (a ∷ []))

-- The bootstraps that are sent, with the one that is still to be sent.
abbrev pub asked : Dns → ℕ
asked s = bootstraps s.log + (if s.send_bootstrap then 1 else 0)

abbrev pub is_new_url : Event → ℕ
is_new_url (resolve_call changed) = if changed then 1 else 0
is_new_url ttl_timer_expired = 0
is_new_url (answer_came id answer) = 0
is_new_url (socket_event id fd read write) = 0
is_new_url (fd_ready id fd readable writable) = 0
is_new_url (timeout_timer_expired id) = 0
is_new_url (clean_timer_expired id) = 0

-- How many events are a call for a new URL.
abbrev pub new_urls : List (Env × Event) → ℕ
new_urls [] = 0
new_urls (p ∷ events) = is_new_url p.1 + new_urls events

send-asked : (s : Dns) → asked (send_pending_bootstrap s) ≡ asked s
unfolding send_pending_bootstrap
send-asked s = ground (arith, bootstraps-one s.log bootstrap_inform)

take_answer-asked :
    (e : Env) (dirty : Bool) (answer : Answer) (s : Dns)
    → asked (take_answer e dirty answer s) ≡ asked s
unfolding take_answer arm
take_answer-asked e true answer s = refl
take_answer-asked e false failed s = ground (arith, send-asked (arm retry_delay s))
take_answer-asked e false (found node nodes) s =
    let l = listed [] (node ∷ nodes) in
    rw (take_answer-found e node nodes s) (
      ground (
        arith,
        send-asked (after_answer e l s),
        bootstraps-one s.log (set_ip_list (ip_list_text l)),
      ))

resolve_cb-asked :
    (e : Env) (id : ℕ) (answer : Answer) (s : Dns) → asked (resolve_cb e id answer s) ≡ asked s
unfolding resolve_cb
resolve_cb-asked e id answer s = elim (Option-cases (find_resolver id s.resolvers)) [
  | inl f ↦ ground (arith, f)
  | inr (r, f) ↦ ground (
    arith,
    f,
    take_answer-asked e r.dirty answer
        (record s { resolvers = on_resolver answered id s.resolvers }),
  )
]

ares_resolution-asked :
    (e : Env) (host : CString) (s : Dns) → asked (ares_resolution e host s).0 ≡ asked s
unfolding ares_resolution resolver_create
ares_resolution-asked e host s = elim (Bool-cases (is_empty host || e.init_fails)) [
  | inl f ↦ ground (arith, f)
  | inr f ↦
      let r = new_resolver s.next_id host in
      let act = query r.id r.host (get_aifamily e) in
      let s' =
        perform act (record s { resolvers = s.resolvers ++ r ∷ []; next_id = s.next_id + 1 }) in
      elim (Option-cases e.answer_at_once) [
        | inl n ↦ ground (arith, f, n, bootstraps-one s.log act)
        | inr (answer, n) ↦
            ground (arith, f, n, bootstraps-one s.log act, resolve_cb-asked e r.id answer s')
      ]
]

resolve_host-asked :
    (e : Env) (host : CString) (s : Dns) → asked (resolve_host e host s).0 ≡ asked s
unfolding resolve_host set_static_ip
resolve_host-asked e host s = ground (
  arith,
  ares_resolution-asked e host s,
  send-asked (set_static_ip host s),
  bootstraps-one s.log (set_ip_list host),
)

resolve-asked :
    (e : Env) (changed : Bool) (s : Dns)
    → asked (resolve e changed s).0 ≤ asked s + (if changed then 1 else 0)
unfolding resolve arm forget_addresses drop_lookups
resolve-asked e changed s = elim (Option-cases (get_host e)) [
  | inl n ↦ ground (arith, n)
  | inr (host, n) ↦
      let s' = drop_lookups e (forget_addresses changed s) in
      ground (arith, n, resolve_host-asked e host s', bootstraps-one s.log (set_ip_list []))
]

clean-asked : (e : Env) (id : ℕ) (s : Dns) → asked (clean_expired e id s) ≡ asked s
unfolding clean_expired resolver_clean
clean-asked e id s = elim (Option-cases (find_resolver id s.resolvers)) [
  | inl f ↦ ground (arith, f)
  | inr (r, f) ↦
      let s' = record s { resolvers = remove_resolver id s.resolvers } in
      ground (
        arith,
        f,
        take_answer-asked e r.dirty failed s',
        bootstraps-one s'.log (destroy_channel r.id),
        bootstraps-one (take_answer e r.dirty failed s').log (destroy_channel r.id),
      )
]

handle-asked :
    (e : Env) (event : Event) (s : Dns) → asked (handle e event s) ≤ asked s + is_new_url event
unfolding handle ttl_expired fd_event timeout_expired answer_if_pending
handle-asked e (resolve_call changed) s = resolve-asked e changed s
handle-asked e ttl_timer_expired s =
    ground (arith, resolve-asked e false (record s { ttl_timer = none }))
handle-asked e (answer_came id answer) s = ground (arith, resolve_cb-asked e id answer s)
handle-asked e (socket_event id fd read write) s = omega arith
handle-asked e (fd_ready id fd readable writable) s =
    let act =
      process_fd id (if readable then some fd else none) (if writable then some fd else none) in
    omega (arith, bootstraps-one s.log act)
handle-asked e (timeout_timer_expired id) s =
    omega (arith, bootstraps-one s.log (process_fd id none none))
handle-asked e (clean_timer_expired id) s = omega (arith, clean-asked e id s)

-- Over any events the bootstraps that are sent, with the one that is still to be sent, are at most as
-- many as the calls for a new URL, besides those that were sent or to be sent at first.
pub run_events-asked :
    (events : List (Env × Event)) (s : Dns)
    → asked (run_events events s) ≤ asked s + new_urls events
unfolding run_events
run_events-asked [] s = omega arith
run_events-asked ((e, event) ∷ events) s =
    omega (arith, handle-asked e event s, run_events-asked events (handle e event s))
