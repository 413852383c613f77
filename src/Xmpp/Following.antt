-- ===== src/Xmpp/Following.antt =====
-- The subscription follows the connection (cwmp_plugin/cwmp_plugin_xmpp.c).
use mathlib.Core.Path.{subst}
use tr069_manager.Base.{
  ◌≡◌, refl, ap, ◌∙◌, inl, inr, Bool, true, false, ◌||◌, Option, none, some, List, [], ◌∷◌, ◌++◌,
  arith, ◌==◌, if◌then◌else◌, Bool-cases, Option-cases, CString, codes, streq, streq_refl, All,
  is_empty,
}
use tr069_manager.Xmpp.Defs.{
  Xmpp, Env, is_current, set_jabber_id, update_jabber_id, write_connection, connection_deleted,
  add_subscription, remove_path, del_subscription, connection_changed, xmpp_init,
}
use tr069_manager.Xmpp.Events.{Event, written, change_told, deleted, updated, handle, run_events}

-- The subscriptions of a connection: none for the empty path.
abbrev pub one : CString → List CString
one [] = []
one (c ∷ cnx) = (c ∷ cnx) ∷ []

-- The changes lead from a connection to another one.
abbrev pub Leads : CString → List (CString × CString) → CString → Type 0
Leads a [] b = a ≡ b
Leads a ((old, new) ∷ l) b = (a ≡ old) × Leads new l b

-- The subscription is that of a connection from which the waiting changes lead to the present one.
abbrev pub IsFollowing : Xmpp → Type 0
IsFollowing s = (a : CString) × (s.subscriptions ≡ one a) × Leads a s.changes s.connection

append-Leads :
    (a b c : CString) (l : List (CString × CString)) → Leads a l b → Leads a (l ++ (b, c) ∷ []) c
append-Leads a b c [] p = (p, refl)
append-Leads a b c ((old, new) ∷ l) p = (p.0, append-Leads new b c l p.1)

same_subscription :
    (e : Env) (cnx : Option CString) (s : Xmpp)
    → ((update_jabber_id e cnx s).subscriptions ≡ s.subscriptions)
      × ((update_jabber_id e cnx s).changes ≡ s.changes)
      × ((update_jabber_id e cnx s).connection ≡ s.connection)
unfolding update_jabber_id set_jabber_id
same_subscription e none s = (refl, refl, refl)
same_subscription e (some cnx) s = elim (Option-cases (e.get cnx)) [
  | inl n ↦ (ground (arith, n), ground (arith, n), ground (arith, n))
  | inr ((enable, none), n) ↦ (ground (arith, n), ground (arith, n), ground (arith, n))
  | inr ((enable, some jid), n) ↦ (ground (arith, n), ground (arith, n), ground (arith, n))
]

update-IsFollowing :
    (e : Env) (cnx : Option CString) (s : Xmpp)
    → IsFollowing s
    → IsFollowing (update_jabber_id e cnx s)
update-IsFollowing e cnx s (a, subs, leads) =
    let same = same_subscription e cnx s in (a, same.0 ∙ subs, rw (same.1, same.2) leads)

write-IsFollowing :
    (cnx : CString) (s : Xmpp) → IsFollowing s → IsFollowing (write_connection cnx s)
unfolding write_connection
write-IsFollowing cnx s (a, subs, leads) = elim (Bool-cases (streq s.connection cnx)) [
  | inl q ↦ rw (q, write_connection) (a, subs, leads)
  | inr q ↦ rw (q, write_connection) (a, subs, append-Leads a s.connection cnx s.changes leads)
]

-- A change moves the subscription from the old connection to the new one.
moves :
    (e : Env) (old new : CString) (s : Xmpp)
    → e.subscribe_fails ≡ false
    → s.subscriptions ≡ one old
    → (add_subscription e new (del_subscription old s)).subscriptions ≡ one new
unfolding add_subscription del_subscription remove_path
moves e [] [] s works subs = ground (arith, works, subs)
moves e [] (c ∷ new) s works subs = ground (arith, works, subs)
moves e (o ∷ old) [] s works subs = ground (arith, works, subs, streq_refl (o ∷ old))
moves e (o ∷ old) (c ∷ new) s works subs = ground (arith, works, subs, streq_refl (o ∷ old))

others_kept :
    (e : Env) (old new : CString) (s : Xmpp)
    → ((add_subscription e new (del_subscription old s)).changes ≡ s.changes)
      × ((add_subscription e new (del_subscription old s)).connection ≡ s.connection)
unfolding add_subscription del_subscription
others_kept e old new s = (ground arith, ground arith)

changed-IsFollowing :
    (e : Env) (old new : CString) (s : Xmpp)
    → e.subscribe_fails ≡ false
    → s.subscriptions ≡ one old
    → Leads new s.changes s.connection
    → IsFollowing (connection_changed e old new s)
unfolding connection_changed
changed-IsFollowing e old new s works subs leads =
    let s' = add_subscription e new (del_subscription old s) in
    let kept = others_kept e old new s in
    update-IsFollowing e (some new) s'
      (new, moves e old new s works subs, rw (kept.0, kept.1) leads)

told-IsFollowing :
    (e : Env) (l : List (CString × CString)) (s : Xmpp)
    → e.subscribe_fails ≡ false
    → s.changes ≡ l
    → IsFollowing s
    → IsFollowing (handle e change_told s)
unfolding handle
told-IsFollowing e [] s works q old = rw (q, handle) old
told-IsFollowing e ((from, to) ∷ l) s works q (a, subs, leads) =
    let leads' : Leads a ((from, to) ∷ l) s.connection =
      subst (λ c. Leads a c s.connection) q leads in
    let s' = record s { changes = l } in
    rw (q, handle) (changed-IsFollowing e from to s' works (subs ∙ ap one leads'.0) leads'.1)

if-IsFollowing :
    (b : Bool) (s t : Xmpp) → IsFollowing s → IsFollowing t → IsFollowing (if b then s else t)
if-IsFollowing true s t p q = p
if-IsFollowing false s t p q = q

connection_one :
    (e : Env) (cnx : CString) (s : Xmpp)
    → e.subscribe_fails ≡ false
    → s.subscriptions ≡ []
    → ((add_subscription e cnx s).subscriptions ≡ one cnx)
      × ((add_subscription e cnx s).changes ≡ s.changes)
      × ((add_subscription e cnx s).connection ≡ s.connection)
unfolding add_subscription
connection_one e [] s works none_yet = (ground (arith, none_yet), ground arith, ground arith)
connection_one e (c ∷ cnx) s works none_yet =
    (ground (arith, works, none_yet), ground arith, ground arith)

handle-IsFollowing :
    (e : Env) (event : Event) (s : Xmpp)
    → e.subscribe_fails ≡ false
    → IsFollowing s
    → IsFollowing (handle e event s)
unfolding handle connection_deleted
handle-IsFollowing e (written cnx) s works old = write-IsFollowing cnx s old
handle-IsFollowing e change_told s works old = told-IsFollowing e s.changes s works refl old
handle-IsFollowing e (deleted path index) s works old =
    if-IsFollowing (index == 0 || is_empty path) s
      (if is_current (path ++ e.decimal index ++ codes ".") s then write_connection [] s else s) old
      (if-IsFollowing (is_current (path ++ e.decimal index ++ codes ".") s) (write_connection [] s)
        s (write-IsFollowing [] s old) old)
handle-IsFollowing e (updated cnx) s works old = update-IsFollowing e (some cnx) s old

run_events-IsFollowing :
    (events : List (Env × Event)) (s : Xmpp)
    → All (λ p. p.0.subscribe_fails ≡ false) events
    → IsFollowing s
    → IsFollowing (run_events events s)
unfolding run_events
run_events-IsFollowing [] s works old = old
run_events-IsFollowing ((e, event) ∷ events) s works old =
    run_events-IsFollowing events (handle e event s) works.1
      (handle-IsFollowing e event s works.0 old)

init-IsFollowing :
    (e : Env) (s : Xmpp)
    → e.subscribe_fails ≡ false
    → s.subscriptions ≡ []
    → s.changes ≡ []
    → IsFollowing (xmpp_init e s)
unfolding xmpp_init
init-IsFollowing e s works none_yet quiet =
    let c = connection_one e s.connection s works none_yet in
    let s' = add_subscription e s.connection s in
    update-IsFollowing e (some s.connection) s' (s.connection, c.0, rw (c.1 ∙ quiet, c.2) refl)

-- After the set-up with no subscription and no change that waits, and after any writes of
-- ConnReqXMPPConnection, deletions and updates of connections, with subscriptions that succeed, once
-- all changes of the connection are told there is one subscription, that of the present connection,
-- or none where it is empty.
pub subscription-follows :
    (e : Env) (events : List (Env × Event)) (s : Xmpp)
    → e.subscribe_fails ≡ false
    → All (λ p. p.0.subscribe_fails ≡ false) events
    → s.subscriptions ≡ []
    → s.changes ≡ []
    → (run_events events (xmpp_init e s)).changes ≡ []
    → (run_events events (xmpp_init e s)).subscriptions
      ≡ one (run_events events (xmpp_init e s)).connection
subscription-follows e events s works all_work none_yet quiet told =
    let s' = run_events events (xmpp_init e s) in
    let (a, subs, leads) =
      run_events-IsFollowing events (xmpp_init e s) all_work
        (init-IsFollowing e s works none_yet quiet) in
    let last : a ≡ s'.connection = subst (λ c. Leads a c s'.connection) told leads in
    subs ∙ ap one last
