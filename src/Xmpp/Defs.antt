-- ===== src/Xmpp/Defs.antt =====
-- The state and the functions of cwmp_plugin/cwmp_plugin_xmpp.c.
use tr069_manager.Base.{
  ℕ, Bool, not, ◌&&◌, ◌||◌, Option, none, some, List, [], ◌∷◌, ◌++◌, ◌==◌, if◌then◌else◌, CString,
  codes, streq, is_empty,
}

-- ConnReqXMPPConnection and ConnReqJabberID, the paths with a subscription, and the changes of the
-- connection that the data model still has to tell, each with its old and its new value.
pub record Xmpp : Type 0 where
  pub connection : CString
  pub jabber_id : CString
  pub subscriptions : List CString
  pub changes : List (CString × CString)

-- What the calls return in one run of a function.
pub record Env : Type 0 where
  pub get : CString → Option (Bool × Option CString)  -- Enable and JabberID, `none` where it fails
  pub subscribe_fails : Bool
  pub decimal : ℕ → CString  -- printf's %d

-- is_current_cnx
unfoldable pub is_current : CString → Xmpp → Bool
is_current cnx s = not (is_empty cnx) && streq cnx s.connection

-- set_connreq_jabber_id
unfoldable pub set_jabber_id : Option CString → Xmpp → Xmpp
set_jabber_id none s = s
set_jabber_id (some jid) s = record s { jabber_id = jid }

-- update_connreq_jabber_id
unfoldable pub update_jabber_id : Env → Option CString → Xmpp → Xmpp
update_jabber_id e none s = s
update_jabber_id e (some cnx) s =
    if is_empty cnx then set_jabber_id (some []) s else elim (e.get cnx) [
      | none ↦ s
      | some (enable, jid) ↦ if enable then set_jabber_id jid s else set_jabber_id (some []) s
    ]

-- A write of ConnReqXMPPConnection; the data model tells of a new value.
unfoldable pub write_connection : CString → Xmpp → Xmpp
write_connection cnx s =
    if streq s.connection cnx
    then s
    else record s { connection = cnx; changes = s.changes ++ (s.connection, cnx) ∷ [] }

-- xmpp_connection_deleted_cb
unfoldable pub connection_deleted : Env → CString → ℕ → Xmpp → Xmpp
connection_deleted e path index s =
    if index == 0 || is_empty path
    then s
    else if is_current (path ++ e.decimal index ++ codes ".") s
    then write_connection [] s
    else s

-- xmpp_connection_add_sub
unfoldable pub add_subscription : Env → CString → Xmpp → Xmpp
add_subscription e cnx s =
    if is_empty cnx || e.subscribe_fails
    then s
    else record s { subscriptions = s.subscriptions ++ cnx ∷ [] }

unfoldable pub remove_path : CString → List CString → List CString
remove_path cnx [] = []
remove_path cnx (x ∷ l) = let rest = remove_path cnx l in if streq x cnx then l else x ∷ rest

-- xmpp_connection_del_sub
unfoldable pub del_subscription : CString → Xmpp → Xmpp
del_subscription cnx s =
    if is_empty cnx then s else record s { subscriptions = remove_path cnx s.subscriptions }

-- _connreq_xmpp_connection_changed
unfoldable pub connection_changed : Env → CString → CString → Xmpp → Xmpp
connection_changed e old new s =
    update_jabber_id e (some new) (add_subscription e new (del_subscription old s))

-- deferred_init_timer_cb; the subscription to the table is made.
unfoldable pub xmpp_init : Env → Xmpp → Xmpp
xmpp_init e s = update_jabber_id e (some s.connection) (add_subscription e s.connection s)
