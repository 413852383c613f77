-- ===== src/Xmpp/Examples.antt =====
-- Runs of the XMPP connection, and its theorem at a concrete state.
use tr069_manager.Base.{◌≡◌, refl, true, false, some, List, [], ◌∷◌, codes, streq}
use tr069_manager.Xmpp.Defs.{
  Xmpp, Env, is_current, set_jabber_id, update_jabber_id, write_connection, connection_deleted,
  add_subscription, remove_path, del_subscription, connection_changed, xmpp_init,
}
use tr069_manager.Xmpp.Events.{Event, written, change_told, deleted, handle, run_events}
use tr069_manager.Xmpp.Following.{subscription-follows}

abbrev env : Env
env = record {
  get = λ path. some (true, some (codes "cpe@acs"));
  subscribe_fails = false;
  decimal = λ n. codes "1";
}

abbrev start : Xmpp
start = record { connection = codes "X.1."; jabber_id = []; subscriptions = []; changes = [] }

-- A new connection, the deletion of the old one, and the change told.
abbrev events : List (Env × Event)
events = (env, written (codes "X.2.")) ∷ (env, deleted (codes "X.") 1) ∷ (env, change_told) ∷ []

jabber_id_test : (run_events events (xmpp_init env start)).jabber_id ≡ codes "cpe@acs"
unfolding run_events handle xmpp_init update_jabber_id set_jabber_id add_subscription
    write_connection connection_deleted is_current connection_changed del_subscription remove_path
    streq
jabber_id_test = refl

subscription-follows_example :
    (run_events events (xmpp_init env start)).subscriptions ≡ codes "X.2." ∷ []
unfolding run_events handle xmpp_init update_jabber_id set_jabber_id add_subscription
    write_connection connection_deleted is_current connection_changed del_subscription remove_path
    streq
subscription-follows_example =
    subscription-follows env events start refl (refl, (refl, (refl, tt))) refl refl refl
