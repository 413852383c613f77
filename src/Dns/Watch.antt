-- ===== src/Dns/Watch.antt =====
-- The lookup of the addresses never comes to rest (dmmain/cwmpd_dns.c).
use tr069_manager.Base.{
  ℕ, ◌+◌, ◌≡◌, refl, inl, inr, Bool, true, false, not, ◌&&◌, ◌||◌, none, some, List, [], ◌∷◌, ◌++◌,
  arith, ◌==◌, Bool-cases, Option-cases, is_some, CString, All, is_empty,
}
use tr069_manager.Dns.Defs.{Resolver, Answer, failed, found, query, Dns, Env, perform, arm}
use tr069_manager.Dns.Answer.{send_pending_bootstrap, take_answer}
use tr069_manager.Dns.Lookup.{
  find_resolver, on_resolver, answered, resolve_cb, get_aifamily, new_resolver, resolver_create,
  ares_resolution, mark_dirty, is_ipaddr, forget_addresses, drop_lookups, resolve_host, get_host,
  retry_unless, resolve,
}
use tr069_manager.Dns.Reading.{take_answer-found}
use tr069_manager.Dns.Events.{
  poll_stop, poll_start, socket_changed, fd_event, timeout_expired, remove_resolver, resolver_clean,
  clean_expired, ttl_expired, Event, resolve_call, ttl_timer_expired, answer_came, socket_event,
  fd_ready, timeout_timer_expired, clean_timer_expired, answer_if_pending, handle, run_events,
}

-- A lookup whose answer will be taken is under way.
unfoldable pub is_asking : List Resolver → Bool
is_asking [] = false
is_asking (r ∷ rs) = (r.pending && not r.dirty) || is_asking rs

-- The next lookup is certain: its timer runs, or an answer is still to come and will be taken.
abbrev pub IsWatching : Dns → Type 0
IsWatching s = (s.has_timer ≡ true) × ((is_some s.ttl_timer || is_asking s.resolvers) ≡ true)

-- The ACS is named by a host name, where its URL can be read.
abbrev pub NamesHost : Env → Type 0
NamesHost e = (h : CString) → get_host e ≡ some h → (is_empty h || is_ipaddr e h) ≡ false

-- What a taken answer leaves of the lookups.
take_answer-arms :
    (e : Env) (answer : Answer) (s : Dns)
    → s.has_timer ≡ true
    → ((take_answer e false answer s).has_timer ≡ true)
      × (is_some (take_answer e false answer s).ttl_timer ≡ true)
unfolding take_answer send_pending_bootstrap arm
take_answer-arms e failed s t = (ground (arith, t), ground (arith, t))
take_answer-arms e (found node nodes) s t =
    rw (take_answer-found e node nodes s) (ground (arith, t), ground (arith, t))

-- A write to a resolver that keeps what it asks, or is not asking.
asking-on_resolver :
    (f : Resolver → Resolver) (id : ℕ) (rs : List Resolver)
    → ((r : Resolver) → ((f r).pending && not (f r).dirty) ≡ (r.pending && not r.dirty))
    → is_asking (on_resolver f id rs) ≡ is_asking rs
unfolding is_asking on_resolver
asking-on_resolver f id [] same = refl
asking-on_resolver f id (r ∷ rs) same = ground (arith, same r, asking-on_resolver f id rs same)

asking-answered :
    (id : ℕ) (rs : List Resolver) (r : Resolver)
    → find_resolver id rs ≡ some r
    → r.dirty ≡ true
    → is_asking (on_resolver answered id rs) ≡ is_asking rs
unfolding is_asking on_resolver find_resolver
asking-answered id [] r here dirty = ground (arith, here)
asking-answered id (x ∷ rs) r here dirty = elim (Bool-cases (x.id == id)) [
  | inl s ↦ ground (arith, s, here, dirty)
  | inr s ↦ ground (arith, s, asking-answered id rs r (ground (arith, s, here)) dirty)
]

asking-removed :
    (id : ℕ) (rs : List Resolver) (r : Resolver)
    → find_resolver id rs ≡ some r
    → (r.pending && not r.dirty) ≡ false
    → is_asking (remove_resolver id rs) ≡ is_asking rs
unfolding is_asking remove_resolver find_resolver
asking-removed id [] r here idle = ground (arith, here)
asking-removed id (x ∷ rs) r here idle = elim (Bool-cases (x.id == id)) [
  | inl s ↦ ground (arith, s, here, idle)
  | inr s ↦ ground (arith, s, asking-removed id rs r (ground (arith, s, here)) idle)
]

asking-append :
    (rs : List Resolver) (r : Resolver)
    → is_asking (rs ++ r ∷ []) ≡ (is_asking rs || (r.pending && not r.dirty))
unfolding is_asking
asking-append [] r = ground arith
asking-append (x ∷ rs) r = ground (arith, asking-append rs r)

resolve_cb-IsWatching :
    (e : Env) (id : ℕ) (answer : Answer) (s : Dns)
    → IsWatching s
    → IsWatching (resolve_cb e id answer s)
unfolding resolve_cb take_answer
resolve_cb-IsWatching e id answer s w = elim (Option-cases (find_resolver id s.resolvers)) [
  | inl f ↦ ground (arith, f, w)
  | inr (r, f) ↦ elim (Bool-cases r.dirty) [
    | inl d ↦ ground (arith, f, d, w, asking-answered id s.resolvers r f d)
    | inr d ↦
        let s' = record s { resolvers = on_resolver answered id s.resolvers } in
        ground (arith, f, d, w, take_answer-arms e answer s' w.0)
  ]
]

asking-mark_dirty : (rs : List Resolver) → is_asking (mark_dirty rs) ≡ false
unfolding is_asking mark_dirty
asking-mark_dirty [] = refl
asking-mark_dirty (r ∷ rs) = ground (arith, asking-mark_dirty rs)

-- A lookup of a host name is under way, or it could not be started and is to be tried again.
ares_resolution-IsWatching :
    (e : Env) (host : CString) (s : Dns)
    → s.has_timer ≡ true
    → IsWatching (retry_unless (ares_resolution e host s)).0
unfolding ares_resolution resolver_create arm
ares_resolution-IsWatching e host s t = elim (Bool-cases (is_empty host || e.init_fails)) [
  | inl f ↦ ground (arith, f, t)
  | inr f ↦
      let r = new_resolver s.next_id host in
      let s' =
        perform (query r.id r.host (get_aifamily e))
          (record s { resolvers = s.resolvers ++ r ∷ []; next_id = s.next_id + 1 }) in
      let w : IsWatching s' = ground (arith, t, asking-append s.resolvers r) in
      elim (Option-cases e.answer_at_once) [
        | inl n ↦ ground (arith, f, n, w)
        | inr (answer, n) ↦ ground (arith, f, n, resolve_cb-IsWatching e r.id answer s' w)
      ]
]

resolve-IsWatching :
    (e : Env) (changed : Bool) (s : Dns)
    → s.has_timer ≡ true
    → NamesHost e
    → IsWatching (resolve e changed s).0
unfolding resolve resolve_host drop_lookups forget_addresses arm
resolve-IsWatching e changed s t names = elim (Option-cases (get_host e)) [
  | inl n ↦ ground (arith, n, t)
  | inr (host, n) ↦
      let s' = drop_lookups e (forget_addresses changed s) in
      let t' : s'.has_timer ≡ true = ground (arith, t) in
      ground (arith, n, names host n, ares_resolution-IsWatching e host s' t')
]

clean-IsWatching : (e : Env) (id : ℕ) (s : Dns) → IsWatching s → IsWatching (clean_expired e id s)
unfolding clean_expired resolver_clean take_answer
clean-IsWatching e id s w = elim (Option-cases (find_resolver id s.resolvers)) [
  | inl f ↦ ground (arith, f, w)
  | inr (r, f) ↦
      let s' = record s { resolvers = remove_resolver id s.resolvers } in
      elim (Bool-cases (r.pending && not r.dirty)) [
        | inl p ↦ ground (arith, f, p, w, take_answer-arms e failed s' w.0)
        | inr p ↦ ground (arith, f, p, w, asking-removed id s.resolvers r f p)
      ]
]

socket_keeps_asking :
    (fd read write : ℕ) (r : Resolver)
    → ((socket_changed fd read write r).pending && not (socket_changed fd read write r).dirty)
      ≡ (r.pending && not r.dirty)
unfolding socket_changed poll_stop poll_start
socket_keeps_asking fd read write r = ground arith

socket-IsWatching :
    (fd read write : ℕ) (id : ℕ) (s : Dns)
    → IsWatching s
    → IsWatching
        (record s { resolvers = on_resolver (socket_changed fd read write) id s.resolvers })
socket-IsWatching fd read write id s w = ground (
  arith,
  w,
  asking-on_resolver (socket_changed fd read write) id s.resolvers
      (socket_keeps_asking fd read write),
)

handle-IsWatching :
    (e : Env) (event : Event) (s : Dns) → NamesHost e → IsWatching s → IsWatching (handle e event s)
unfolding handle ttl_expired fd_event timeout_expired answer_if_pending
handle-IsWatching e (resolve_call changed) s names w = resolve-IsWatching e changed s w.0 names
handle-IsWatching e ttl_timer_expired s names w =
    ground (arith, w, resolve-IsWatching e false (record s { ttl_timer = none }) w.0 names)
handle-IsWatching e (answer_came id answer) s names w =
    ground (arith, w, resolve_cb-IsWatching e id answer s w)
handle-IsWatching e (socket_event id fd read write) s names w =
    socket-IsWatching fd read write id s w
handle-IsWatching e (fd_ready id fd readable writable) s names w = w
handle-IsWatching e (timeout_timer_expired id) s names w = w
handle-IsWatching e (clean_timer_expired id) s names w = clean-IsWatching e id s w

-- From a state in which the next lookup is certain, any events in any order lead to such states only,
-- as long as the URL of the ACS, where it can be read, names a host: the timer of the next lookup
-- runs, or an answer is still to come that will not be ignored.
pub run_events-IsWatching :
    (events : List (Env × Event)) (s : Dns)
    → All (λ p. NamesHost p.0) events
    → IsWatching s
    → IsWatching (run_events events s)
unfolding run_events
run_events-IsWatching [] s names w = w
run_events-IsWatching ((e, event) ∷ events) s names w =
    run_events-IsWatching events (handle e event s) names.1 (handle-IsWatching e event s names.0 w)
