-- ===== src/Xmpp/Events.antt =====
-- The events that reach cwmp_plugin/cwmp_plugin_xmpp.c.
use tr069_manager.Base.{ℕ, some, List, [], ◌∷◌, CString}
use tr069_manager.Xmpp.Defs.{
  Xmpp, Env, update_jabber_id, write_connection, connection_deleted, connection_changed,
}

pub data Event : Type 0 where
  written : CString → Event  -- the ACS writes ConnReqXMPPConnection
  change_told : Event  -- the first change that waits
  deleted : CString → ℕ → Event
  updated : CString → Event  -- xmpp_connection_updated_cb

unfoldable pub handle : Env → Event → Xmpp → Xmpp
handle e (written cnx) s = write_connection cnx s
handle e change_told s = elim s.changes [
  | [] ↦ s
  | c ∷ l ↦ connection_changed e c.0 c.1 (record s { changes = l })
]
handle e (deleted path index) s = connection_deleted e path index s
handle e (updated cnx) s = update_jabber_id e (some cnx) s

unfoldable pub run_events : List (Env × Event) → Xmpp → Xmpp
run_events [] s = s
run_events ((e, event) ∷ events) s = run_events events (handle e event s)
