-- ===== src/Plugin/Settled.antt =====
-- The address that the plugin announces over all events (cwmp_plugin/cwmp_plugin_intf_queries.c).
use mathlib.Core.Option
use tr069_manager.Base.{
  ℕ, ◌+◌, ◌-◌, ◌*◌, ◌%◌, ◌^◌, ◌≡◌, refl, ◌∙◌, inl, inr, Bool, true, false, Option, some, List, [],
  ◌∷◌, arith, ltb, if◌then◌else◌, is_some, CString, All, is_empty, List-cases,
}
use tr069_manager.Plugin.Defs.{WanIpMode, ipv4_only, ipv6_preferred, ip_any, Plugin, Env}
use tr069_manager.Plugin.Service.{close_listening_port, start_cwmpd, process_stopped}
use tr069_manager.Plugin.Url.{update_conreq_port}
use tr069_manager.Plugin.Interface.{update_local_ip, ipv6_address_changed, ipv4_address_changed}
use tr069_manager.Plugin.Events.{
  Event, init_timer_expired, change_told, ipv4_came, ipv6_came, ipv6_timer_expired,
  lost_timer_expired, mode_written, interface_written, port_set, url_set, process_ended,
  restart_timer_expired, deferred_init, tell, handle, run_events,
}
use tr069_manager.Plugin.Choice.{
  IsSettled, SameChoice, SameChoice-IsSettled, update_local_ip-IsSettled, start-SameChoice,
  if-SameChoice, tell-SameChoice, init-SameChoice,
}

-- A case on the mode keeps what holds of its branches.
ipv4_in :
    (mode : WanIpMode) (empty : Bool) (t u : Plugin)
    → IsSettled t
    → IsSettled u
    → IsSettled (elim mode [ ipv6_preferred ↦ if empty then t else u | _ ↦ u ])
ipv4_in ipv4_only empty t u p q = q
ipv4_in ip_any empty t u p q = q
ipv4_in ipv6_preferred true t u p q = p
ipv4_in ipv6_preferred false t u p q = q

ipv4-IsSettled :
    (e : Env) (ip : Option CString) (s : Plugin)
    → IsSettled s
    → IsSettled (ipv4_address_changed e ip s)
unfolding ipv4_address_changed
ipv4-IsSettled e ip s (update, old) =
    let s' = record s { ipv4 = Option.get_or ip [] } in
    let waits = record s' {
      ipv6_timer = some (e.max_wait_time * 1000 % 2 ^ 32);
      lost_timers = s.lost_timers + (if is_some s.ipv6_timer then 1 else 0);
    } in
    ipv4_in s.mode (is_empty s.ipv6) waits (update_local_ip s') (update, inl refl)
      (update_local_ip-IsSettled s' update)

ipv6_in :
    (mode : WanIpMode) (t u : Plugin)
    → (mode ≡ ipv4_only → IsSettled t)
    → IsSettled u
    → IsSettled (elim mode [ ipv4_only ↦ t | _ ↦ u ])
ipv6_in ipv4_only t u p q = p refl
ipv6_in ip_any t u p q = q
ipv6_in ipv6_preferred t u p q = q

-- In the mode for IPv4 only, an IPv6 address does not count.
only_ipv4 :
    (v6 : CString) (s : Plugin)
    → IsSettled s
    → s.mode ≡ ipv4_only
    → IsSettled (record s { ipv6 = v6 })
only_ipv4 v6 s (update, inl t) m = (update, inl t)
only_ipv4 v6 s (update, inr h) m = (update, inr (rw m (h ∙ rw m refl)))

ipv6-IsSettled :
    (ip : Option CString) (s : Plugin) → IsSettled s → IsSettled (ipv6_address_changed ip s)
unfolding ipv6_address_changed
ipv6-IsSettled ip s old =
    let s' = record s { ipv6 = Option.get_or ip [] } in
    ipv6_in s.mode s' (update_local_ip s') (only_ipv4 (Option.get_or ip []) s old)
      (update_local_ip-IsSettled s' old.0)

-- An event that leaves the mode, the interface and UpdateConnRequestURL alone.
abbrev pub is_address_event : Event → Bool
is_address_event (mode_written mode) = false
is_address_event (interface_written name) = false
is_address_event (url_set update host port) = false
is_address_event event = true

process-SameChoice : (e : Env) (s : Plugin) → SameChoice s (handle e process_ended s)
unfolding handle process_stopped close_listening_port
process-SameChoice e s =
    (ground arith, ground arith, ground arith, ground arith, ground arith, ground arith)

port_set-SameChoice : (port : ℕ) (s : Plugin) → SameChoice s (update_conreq_port port s)
unfolding update_conreq_port
port_set-SameChoice port s =
    (ground arith, ground arith, ground arith, ground arith, ground arith, ground arith)

restart-SameChoice : (e : Env) (s : Plugin) → SameChoice s (handle e restart_timer_expired s)
unfolding handle
restart-SameChoice e s =
    let s' = record s { restart_timers = s.restart_timers - 1 } in
    if-SameChoice (ltb 0 s.restart_timers) s (start_cwmpd e s') s (start-SameChoice e s')
      (refl, refl, refl, refl, refl, refl)

if-IsSettled :
    (b : Bool) (t u : Plugin) → IsSettled t → IsSettled u → IsSettled (if b then t else u)
if-IsSettled true t u p q = p
if-IsSettled false t u p q = q

handle-IsSettled :
    (e : Env) (event : Event) (s : Plugin)
    → is_address_event event ≡ true
    → IsSettled s
    → IsSettled (handle e event s)
unfolding handle
handle-IsSettled e init_timer_expired s address old =
    SameChoice-IsSettled s (deferred_init e s) (init-SameChoice e s) old
handle-IsSettled e change_told s address old = elim (List-cases s.changes) [
  | inl n ↦ rw (n, handle) old
  | inr (c, (l, n)) ↦
      let s' = record s { changes = l } in
      rw (n, handle) (SameChoice-IsSettled s (tell e c s') (tell-SameChoice e c s') old)
]
handle-IsSettled e (ipv4_came ip) s address old =
    if-IsSettled s.has_queries (ipv4_address_changed e ip s) s (ipv4-IsSettled e ip s old) old
handle-IsSettled e (ipv6_came ip) s address old =
    if-IsSettled s.has_queries (ipv6_address_changed ip s) s (ipv6-IsSettled ip s old) old
handle-IsSettled e ipv6_timer_expired s address old =
    if-IsSettled (is_some s.ipv6_timer) (update_local_ip s) s (update_local_ip-IsSettled s old.0)
      old
handle-IsSettled e lost_timer_expired s address old =
    let s' = record s { lost_timers = s.lost_timers - 1 } in
    if-IsSettled (ltb 0 s.lost_timers) (update_local_ip s') s (update_local_ip-IsSettled s' old.0)
      old
handle-IsSettled e (mode_written mode) s address old = ground (arith, address)
handle-IsSettled e (interface_written name) s address old = ground (arith, address)
handle-IsSettled e (url_set update host port) s address old = ground (arith, address)
handle-IsSettled e (port_set port) s address old =
    SameChoice-IsSettled s (update_conreq_port port s) (port_set-SameChoice port s) old
handle-IsSettled e process_ended s address old =
    SameChoice-IsSettled s (handle e process_ended s) (process-SameChoice e s) old
handle-IsSettled e restart_timer_expired s address old =
    SameChoice-IsSettled s (handle e restart_timer_expired s) (restart-SameChoice e s) old

abbrev pub AllAddress : List (Env × Event) → Type 0
AllAddress events = All (λ p. is_address_event p.1 ≡ true) events

-- The announced host refines the choice of an address: from a state in which ConnRequestHost is the
-- first address that is set among those that the mode allows, the preferred one first, or 0.0.0.0,
-- or in which a timer for IPv6 runs, and in which UpdateConnRequestURL is set, all events but a new
-- mode, a new interface and a call of updateConnectionRequestURL lead to such states.
pub run_events-IsSettled :
    (events : List (Env × Event)) (s : Plugin)
    → AllAddress events
    → IsSettled s
    → IsSettled (run_events events s)
unfolding run_events
run_events-IsSettled [] s address old = old
run_events-IsSettled ((e, event) ∷ events) s address old =
    run_events-IsSettled events (handle e event s) address.1
      (handle-IsSettled e event s address.0 old)
