-- ===== src/Dns/Lookup.antt =====
-- The start of a lookup in dmmain/cwmpd_dns.c, and the callback with its answer.
use tr069_manager.Base.{
  ℕ, ◌+◌, Bool, true, false, ◌||◌, Option, none, some, List, [], ◌∷◌, ◌++◌, pos, ltb, ◌==◌,
  if◌then◌else◌, CString, atoi, is_empty,
}
use tr069_manager.Dns.Defs.{
  Resolver, Answer, set_ip_list, query, Dns, Env, perform, arm, retry_delay,
}
use tr069_manager.Dns.Answer.{send_pending_bootstrap, take_answer}

-- The resolver at `id` of a list.
unfoldable pub find_resolver : ℕ → List Resolver → Option Resolver
find_resolver id [] = none
find_resolver id (r ∷ rs) = let rest = find_resolver id rs in if r.id == id then some r else rest

-- A write through the pointer to the resolver at `id`.
unfoldable pub on_resolver : (Resolver → Resolver) → ℕ → List Resolver → List Resolver
on_resolver f id [] = []
on_resolver f id (r ∷ rs) =
    let rest = on_resolver f id rs in if r.id == id then f r ∷ rs else r ∷ rest

-- resolver_clean_timer_start
abbrev pub start_clean_timer : Resolver → Resolver
start_clean_timer r = record r { clean_timer = true }

abbrev pub answered : Resolver → Resolver
answered r = record r { clean_timer = true; pending = false }

-- cwmp_dns_resolve_cb for the resolver at `id`
unfoldable pub resolve_cb : Env → ℕ → Answer → Dns → Dns
resolve_cb e id answer s = elim (find_resolver id s.resolvers) [
  | none ↦ s
  | some r ↦
      take_answer e r.dirty answer (record s { resolvers = on_resolver answered id s.resolvers })
]

-- cwmp_dns_get_aifamily: AF_INET is 4, AF_INET6 is 6 and AF_UNSPEC is 0.
unfoldable pub get_aifamily : Env → ℕ
get_aifamily e = elim e.address_family [
  | none ↦ 0
  | some text ↦ if atoi text == 4 then 4 else if atoi text == 6 then 6 else 0
]

abbrev pub new_resolver : ℕ → CString → Resolver
new_resolver id host = record {
  id = id;
  host = host;
  dirty = false;
  pending = true;
  fd_events = [];
  clean_timer = false;
  timeout_timer = false;
}

-- resolver_create; `none` where it gives NULL.
unfoldable pub resolver_create : Env → CString → ℕ → Option Resolver
resolver_create e host id =
    if is_empty host then none else if e.init_fails then none else some (new_resolver id host)

-- cwmp_dns_ares_resolution; true for cwmp_status_ok.
unfoldable pub ares_resolution : Env → CString → Dns → Dns × Bool
ares_resolution e host s = elim (resolver_create e host s.next_id) [
  | none ↦ (s, false)
  | some r ↦
      let s' =
        perform (query r.id r.host (get_aifamily e))
          (record s { resolvers = s.resolvers ++ r ∷ []; next_id = s.next_id + 1 }) in
      (
        elim e.answer_at_once as (λ a. Dns) [
          | none ↦ s'
          | some answer ↦ resolve_cb e r.id answer s'
        ],
        true,
      )
]

-- cwmp_dns_set_static_ip
unfoldable pub set_static_ip : CString → Dns → Dns
set_static_ip host s = perform (set_ip_list host) (record s { ainfo_list = (host, pos 0) ∷ [] })

-- mark_resolvers_as_dirty
unfoldable pub mark_dirty : List Resolver → List Resolver
mark_dirty [] = []
mark_dirty (r ∷ rs) = record r { dirty = true } ∷ mark_dirty rs

-- is_ipaddr
abbrev pub is_ipaddr : Env → CString → Bool
is_ipaddr e host = e.is_ipv4 host || e.is_ipv6 host

-- The part of cwmp_dns_resolve for a new URL.
unfoldable pub forget_addresses : Bool → Dns → Dns
forget_addresses false s = s
forget_addresses true s = record (perform (set_ip_list []) s) {
  ainfo_list = [];
  send_bootstrap = true;
}

-- The stop of the timer and of the lookups that are under way.
unfoldable pub drop_lookups : Env → Dns → Dns
drop_lookups e s = record s {
  ttl_timer = (if ltb 0 e.remaining_time then none else s.ttl_timer);
  resolvers = mark_dirty s.resolvers;
}

-- The branch on the host; true for cwmp_status_ok.
unfoldable pub resolve_host : Env → CString → Dns → Dns × Bool
resolve_host e host s =
    if is_empty host
    then (s, true)
    else if is_ipaddr e host
    then (send_pending_bootstrap (set_static_ip host s), true)
    else ares_resolution e host s

-- cwmp_dns_get_host of the URL; `none` where lws_parse_uri fails.
abbrev pub get_host : Env → Option CString
get_host e = e.parse_host e.url

abbrev pub retry_unless : Dns × Bool → Dns × Bool
retry_unless (s, true) = (s, true)
retry_unless (s, false) = (arm retry_delay s, false)

-- cwmp_dns_resolve; true for cwmp_status_ok.
unfoldable pub resolve : Env → Bool → Dns → Dns × Bool
resolve e changed s = elim (get_host e) [
  | none ↦ retry_unless (s, false)
  | some host ↦ retry_unless (resolve_host e host (drop_lookups e (forget_addresses changed s)))
]
