-- ===== src/Plugin/Current.antt =====
-- The URL of the connection requests follows the host, the port and the path, and is the one that
-- the daemon's server takes (cwmp_plugin/cwmp_plugin_connection_request.c, dmmain/cwmpd_server.c).
use mathlib.Core.Path.{subst}
use tr069_manager.Base.{
  ℕ, ◌≡◌, refl, sym, ◌∙◌, ◌⊎◌, inl, inr, Bool, true, false, not, ◌&&◌, ◌||◌, List, [], ◌∷◌, ◌++◌,
  arith, ◌==◌, if◌then◌else◌, Option-cases, CString, streq, is_empty,
}
use tr069_manager.Plugin.Defs.{
  Change, host_changed, path_changed, port_changed, Plugin, Env, default_host,
}
use tr069_manager.Plugin.Path.{new_path, set_path, create_conreq_path}
use tr069_manager.Plugin.Service.{open_listening_port, close_listening_port, start_cwmpd}
use tr069_manager.Plugin.Url.{
  assemble_url, update_conreq_host, update_conreq_port, update_conn_req_url, path_event, port_event,
  ensure_process, ensure_path, host_event,
}
use tr069_manager.Plugin.Events.{tell}

-- The URL is that of the host, the port and the path, or an event of the data model waits.
abbrev pub IsCurrent : Env → Plugin → Type 0
IsCurrent e s =
    (s.update_url ≡ true)
    × ((is_empty s.changes ≡ false) ⊎ (s.url ≡ assemble_url e s.path s.host s.port))

-- What the URL depends on is the same in two states.
abbrev pub SameUrl : Plugin → Plugin → Type 0
SameUrl s s' =
    (s'.update_url ≡ s.update_url)
    × (s'.changes ≡ s.changes)
    × (s'.url ≡ s.url)
    × (s'.path ≡ s.path)
    × (s'.host ≡ s.host)
    × (s'.port ≡ s.port)

pub SameUrl-IsCurrent : (e : Env) (s s' : Plugin) → SameUrl s s' → IsCurrent e s → IsCurrent e s'
SameUrl-IsCurrent e s s' (a, b, c, d, f, g) (update, inl t) = (a ∙ update, inl (rw b t))
SameUrl-IsCurrent e s s' (a, b, c, d, f, g) (update, inr h) = (a ∙ update, inr (rw (c, d, f, g) h))

pub if-IsCurrent :
    (e : Env) (b : Bool) (t u : Plugin)
    → IsCurrent e t
    → IsCurrent e u
    → IsCurrent e (if b then t else u)
if-IsCurrent e true t u p q = p
if-IsCurrent e false t u p q = q

pub start-SameUrl : (e : Env) (s : Plugin) → SameUrl s (start_cwmpd e s)
unfolding start_cwmpd open_listening_port
start-SameUrl e s =
    (ground arith, ground arith, ground arith, ground arith, ground arith, ground arith)

close-SameUrl : (s : Plugin) → SameUrl s (close_listening_port s)
unfolding close_listening_port
close-SameUrl s =
    (ground arith, ground arith, ground arith, ground arith, ground arith, ground arith)

ensure_process-SameUrl : (e : Env) (s : Plugin) → SameUrl s (ensure_process e s)
unfolding ensure_process start_cwmpd open_listening_port
ensure_process-SameUrl e s =
    (ground arith, ground arith, ground arith, ground arith, ground arith, ground arith)

-- A URL that is made anew is current.
update_conn_req_url-IsCurrent :
    (e : Env) (s : Plugin) → s.update_url ≡ true → IsCurrent e (update_conn_req_url e s)
unfolding update_conn_req_url
update_conn_req_url-IsCurrent e s update = (ground (arith, update), inr (ground (arith, update)))

append-full : (l : List Change) (c : Change) → is_empty (l ++ c ∷ []) ≡ false
append-full [] c = refl
append-full (x ∷ l) c = refl

set_path-IsCurrent :
    (e : Env) (path : CString) (s : Plugin) → IsCurrent e s → IsCurrent e (set_path path s)
unfolding set_path
set_path-IsCurrent e path s old =
    let s' = record s { path = path; changes = s.changes ++ path_changed ∷ [] } in
    if-IsCurrent e (streq s.path path) s s' old (old.0, inl (append-full s.changes path_changed))

ensure_path-IsCurrent : (e e' : Env) (s : Plugin) → IsCurrent e s → IsCurrent e (ensure_path e' s)
unfolding ensure_path create_conreq_path
ensure_path-IsCurrent e e' s old =
    let made : IsCurrent e (create_conreq_path e' s.host s) =
      elim (Option-cases (new_path e' s.path_type s.host)) [
        | inl n ↦ rw (n, create_conreq_path) old
        | inr (path, n) ↦ rw (n, create_conreq_path) (set_path-IsCurrent e path s old)
      ] in
    let s' = record (create_conreq_path e' s.host s) { path_created = true } in
    if-IsCurrent e s.path_created s s' old made

host_event-IsCurrent : (e : Env) (s : Plugin) → s.update_url ≡ true → IsCurrent e (host_event e s)
unfolding host_event
host_event-IsCurrent e s update =
    let s' = update_conn_req_url e s in
    let anew = update_conn_req_url-IsCurrent e s update in
    let s'' = ensure_path e s' in
    let made = ensure_path-IsCurrent e e s' anew in
    let empty = is_empty s.host || streq default_host s.host in
    let both =
      if-IsCurrent e empty (close_listening_port s') (ensure_process e s'')
        (SameUrl-IsCurrent e s' (close_listening_port s') (close-SameUrl s') anew)
        (SameUrl-IsCurrent e s'' (ensure_process e s'') (ensure_process-SameUrl e s'') made) in
    subst
      (λ b.
        IsCurrent e
          (if b then if empty then close_listening_port s' else ensure_process e s'' else s))
      (sym update) both

pub tell-IsCurrent :
    (e : Env) (c : Change) (s : Plugin) → s.update_url ≡ true → IsCurrent e (tell e c s)
unfolding tell path_event port_event open_listening_port
tell-IsCurrent e host_changed s update = host_event-IsCurrent e s update
tell-IsCurrent e path_changed s update = update_conn_req_url-IsCurrent e s update
tell-IsCurrent e port_changed s update = update_conn_req_url-IsCurrent e s update

pub update_conreq_host-IsCurrent :
    (e : Env) (ip : CString) (s : Plugin) → IsCurrent e s → IsCurrent e (update_conreq_host ip s)
unfolding update_conreq_host
update_conreq_host-IsCurrent e ip s old =
    let s' = record s { local_ip = ip } in
    let s'' = record s' { host = ip; changes = s.changes ++ host_changed ∷ [] } in
    if-IsCurrent e (s.update_url && not (streq s.host ip)) s'' s'
      (old.0, inl (append-full s.changes host_changed)) old

pub update_conreq_port-IsCurrent :
    (e : Env) (port : ℕ) (s : Plugin) → IsCurrent e s → IsCurrent e (update_conreq_port port s)
unfolding update_conreq_port
update_conreq_port-IsCurrent e port s old =
    let s' = record s { port = port; changes = s.changes ++ port_changed ∷ [] } in
    if-IsCurrent e (s.update_url && not (s.port == port)) s' s
      (old.0, inl (append-full s.changes port_changed)) old
