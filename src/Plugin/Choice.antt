-- ===== src/Plugin/Choice.antt =====
-- The address that the plugin announces is the one that its mode prefers
-- (cwmp_plugin/cwmp_plugin_intf_queries.c).
use tr069_manager.Base.{
  ◌≡◌, refl, ◌∙◌, ◌⊎◌, inl, inr, Bool, true, false, ◌||◌, List, [], ◌∷◌, arith, if◌then◌else◌,
  Bool-cases, Option-cases, is_some, CString, streq, streq→eq, is_empty,
}
use tr069_manager.Plugin.Defs.{
  WanIpMode, ipv4_only, ipv6_preferred, ip_any, Change, host_changed, path_changed, port_changed,
  Plugin, Env, default_host,
}
use tr069_manager.Plugin.Path.{new_path, set_path, create_conreq_path}
use tr069_manager.Plugin.Service.{open_listening_port, close_listening_port, start_cwmpd}
use tr069_manager.Plugin.Url.{
  update_conreq_host, update_conn_req_url, path_event, port_event, ensure_process, ensure_path,
  host_event,
}
use tr069_manager.Plugin.Interface.{get_local_ip, update_local_ip, open_queries, find_ip}
use tr069_manager.Plugin.Events.{deferred_init, tell}

-- The addresses that a mode allows, the preferred one first.
abbrev pub preferences : WanIpMode → CString → CString → List CString
preferences ipv4_only v4 v6 = v4 ∷ []
preferences ipv6_preferred v4 v6 = v6 ∷ v4 ∷ []
preferences ip_any v4 v6 = v4 ∷ v6 ∷ []

-- The first text that is not empty, or a default.
abbrev pub first_set : List CString → CString → CString
first_set [] default = default
first_set (x ∷ l) default = let rest = first_set l default in if is_empty x then rest else x

abbrev pub chosen : Plugin → CString
chosen s = first_set (preferences s.mode s.ipv4 s.ipv6) default_host

-- getLocalIP gives the first address that is set among those that the mode allows, the preferred one
-- first, and 0.0.0.0 if none is.
pub get_local_ip-first_set :
    (mode : WanIpMode) (v4 v6 : CString)
    → get_local_ip mode v4 v6 ≡ first_set (preferences mode v4 v6) default_host
unfolding get_local_ip
get_local_ip-first_set ipv4_only v4 v6 = refl
get_local_ip-first_set ipv6_preferred v4 v6 = refl
get_local_ip-first_set ip_any v4 v6 = refl

-- The host is the chosen address, or a timer will make it so.
abbrev pub IsSettled : Plugin → Type 0
IsSettled s = (s.update_url ≡ true) × ((is_some s.ipv6_timer ≡ true) ⊎ (s.host ≡ chosen s))

-- What the choice depends on is the same in two states.
abbrev pub SameChoice : Plugin → Plugin → Type 0
SameChoice s s' =
    (s'.update_url ≡ s.update_url)
    × (s'.ipv6_timer ≡ s.ipv6_timer)
    × (s'.host ≡ s.host)
    × (s'.mode ≡ s.mode)
    × (s'.ipv4 ≡ s.ipv4)
    × (s'.ipv6 ≡ s.ipv6)

pub SameChoice-IsSettled : (s s' : Plugin) → SameChoice s s' → IsSettled s → IsSettled s'
SameChoice-IsSettled s s' (a, b, c, d, f, g) (update, inl t) = (a ∙ update, inl (rw b t))
SameChoice-IsSettled s s' (a, b, c, d, f, g) (update, inr h) = (a ∙ update, inr (rw (c, d, f, g) h))

-- A choice that is made anew settles the host.
pub update_local_ip-IsSettled : (s : Plugin) → s.update_url ≡ true → IsSettled (update_local_ip s)
unfolding update_local_ip update_conreq_host
update_local_ip-IsSettled s update =
    let ip = get_local_ip s.mode s.ipv4 s.ipv6 in
    let first = get_local_ip-first_set s.mode s.ipv4 s.ipv6 in
    elim (Bool-cases (streq s.host ip)) [
      | inl q ↦
          (ground (arith, q, update), inr (ground (arith, q, update, first, streq→eq s.host ip q)))
      | inr q ↦ (ground (arith, q, update), inr (ground (arith, q, update, first)))
    ]

open-SameChoice : (e : Env) (s : Plugin) → SameChoice s (open_listening_port e s)
unfolding open_listening_port
open-SameChoice e s = (refl, refl, refl, refl, refl, refl)

pub start-SameChoice : (e : Env) (s : Plugin) → SameChoice s (start_cwmpd e s)
unfolding start_cwmpd open_listening_port
start-SameChoice e s =
    (ground arith, ground arith, ground arith, ground arith, ground arith, ground arith)

close-SameChoice : (s : Plugin) → SameChoice s (close_listening_port s)
unfolding close_listening_port
close-SameChoice s =
    (ground arith, ground arith, ground arith, ground arith, ground arith, ground arith)

update_conn_req_url-SameChoice : (e : Env) (s : Plugin) → SameChoice s (update_conn_req_url e s)
unfolding update_conn_req_url
update_conn_req_url-SameChoice e s =
    (ground arith, ground arith, ground arith, ground arith, ground arith, ground arith)

SameChoice-trans : (s t u : Plugin) → SameChoice s t → SameChoice t u → SameChoice s u
SameChoice-trans s t u (a, b, c, d, f, g) (a', b', c', d', f', g') =
    (a' ∙ a, b' ∙ b, c' ∙ c, d' ∙ d, f' ∙ f, g' ∙ g)

ensure_path-SameChoice : (e : Env) (s : Plugin) → SameChoice s (ensure_path e s)
unfolding ensure_path create_conreq_path set_path
ensure_path-SameChoice e s = elim (Option-cases (new_path e s.path_type s.host)) [
  | inl n ↦ (
    ground (arith, n),
    ground (arith, n),
    ground (arith, n),
    ground (arith, n),
    ground (arith, n),
    ground (arith, n),
  )
  | inr (path, n) ↦ (
    ground (arith, n),
    ground (arith, n),
    ground (arith, n),
    ground (arith, n),
    ground (arith, n),
    ground (arith, n),
  )
]

ensure_process-SameChoice : (e : Env) (s : Plugin) → SameChoice s (ensure_process e s)
unfolding ensure_process start_cwmpd open_listening_port
ensure_process-SameChoice e s =
    (ground arith, ground arith, ground arith, ground arith, ground arith, ground arith)

pub if-SameChoice :
    (b : Bool) (s t u : Plugin)
    → SameChoice s t
    → SameChoice s u
    → SameChoice s (if b then t else u)
if-SameChoice true s t u p q = p
if-SameChoice false s t u p q = q

host_event-SameChoice : (e : Env) (s : Plugin) → SameChoice s (host_event e s)
unfolding host_event
host_event-SameChoice e s =
    let s' = update_conn_req_url e s in
    let a = update_conn_req_url-SameChoice e s in
    let closed = SameChoice-trans s s' (close_listening_port s') a (close-SameChoice s') in
    let s'' = ensure_path e s' in
    let b = SameChoice-trans s s' s'' a (ensure_path-SameChoice e s') in
    let ensured =
      SameChoice-trans s s'' (ensure_process e s'') b (ensure_process-SameChoice e s'') in
    let empty = is_empty s.host || streq default_host s.host in
    if-SameChoice s.update_url s (if empty then close_listening_port s' else ensure_process e s'') s
      (if-SameChoice empty s (close_listening_port s') (ensure_process e s'') closed ensured)
      (refl, refl, refl, refl, refl, refl)

pub tell-SameChoice : (e : Env) (c : Change) (s : Plugin) → SameChoice s (tell e c s)
unfolding tell path_event port_event
tell-SameChoice e host_changed s = host_event-SameChoice e s
tell-SameChoice e path_changed s = update_conn_req_url-SameChoice e s
tell-SameChoice e port_changed s =
    let s' = update_conn_req_url e s in
    SameChoice-trans s s' (open_listening_port e s') (update_conn_req_url-SameChoice e s)
      (open-SameChoice e s')

pub init-SameChoice : (e : Env) (s : Plugin) → SameChoice s (deferred_init e s)
unfolding deferred_init find_ip open_queries
init-SameChoice e s =
    let s' = find_ip (record s { init_done = true }) in
    let found : SameChoice s s' =
      (ground arith, ground arith, ground arith, ground arith, ground arith, ground arith) in
    if-SameChoice s.start_avoided s (start_cwmpd e s') s'
      (SameChoice-trans s s' (start_cwmpd e s') found (start-SameChoice e s')) found
