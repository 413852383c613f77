-- ===== src/AcsTransfers/Upgrade.antt =====
-- The upgrades of the firmware image from their timer to their end
-- (cwmp_plugin/cwmp_plugin_transfer.c).
use mathlib.Core.Option
use tr069_manager.Base.{
  ℕ, ◌≡◌, refl, inl, inr, Bool, true, false, not, ◌||◌, Option, none, some, List, [], ◌∷◌, ◌++◌,
  arith, ◌==◌, if◌then◌else◌, Option-cases, CString, codes, All, get_elem?,
}
use tr069_manager.AcsTransfers.Defs.{
  unknown_time, applying, finished, AcsTransfer, World, Env, put_transfer,
}
use tr069_manager.AcsTransfers.Status.{get_fault_string, set_fault, update_transfer_obj}
use tr069_manager.AcsTransfers.Firmware.{
  remove_first, del_subscription, is_failure, image_fault, image_notification, firmware_upgrade,
  abandon_unless, download_timer_cb,
}
use tr069_manager.AcsTransfers.Events.{Event, image_changed, handle, run_events}

abbrev pub subscribed : ℕ → List ℕ → Bool
subscribed i [] = false
subscribed i (x ∷ l) = x == i || subscribed i l

remove_first-absent : (i : ℕ) (l : List ℕ) → subscribed i l ≡ false → remove_first i l ≡ l
unfolding remove_first
remove_first-absent i [] absent = refl
remove_first-absent i (x ∷ l) absent = ground (arith, absent, remove_first-absent i l)

remove_first-last : (i : ℕ) (l : List ℕ) → subscribed i l ≡ false → remove_first i (l ++ i ∷ []) ≡ l
unfolding remove_first
remove_first-last i [] absent = ground arith
remove_first-last i (x ∷ l) absent = ground (arith, absent, remove_first-last i l)

-- The instance of an upgrade that could not start.
abbrev pub not_started : AcsTransfer → AcsTransfer
not_started t = record t {
  status = finished;
  fault_code = 9002;
  fault_string = some (codes "Internal error");
}

-- When the timer of an upgrade fires and its instance exists, and is not subscribed to the image,
-- then if the subscription and the Download() of the image succeed the instance is Applying and
-- subscribed; if either fails it is Finished with fault 9002 and the subscriptions are as before.
-- Both are saved.
pub download_timer_outcome :
    (e : Env) (i : ℕ) (t : AcsTransfer) (w : World)
    → w.transfers i ≡ some t
    → subscribed i w.subscriptions ≡ false
    → e.unsubscribe_fails ≡ false
    → let w' = download_timer_cb e i w in
      let ok = not (e.subscribe_fails || e.image_call_fails) in
      (w'.transfers i ≡ some (if ok then record t { status = applying } else not_started t))
      × (w'.subscriptions ≡ (if ok then w.subscriptions ++ i ∷ [] else w.subscriptions))
unfolding download_timer_cb abandon_unless firmware_upgrade update_transfer_obj put_transfer
    del_subscription get_fault_string set_fault
download_timer_outcome e i t w here absent keeps = (
  ground (arith, here, keeps),
  ground (
    arith,
    here,
    keeps,
    remove_first-absent i w.subscriptions absent,
    remove_first-last i w.subscriptions absent,
  ),
)

-- A notification of the image's Status and BootFailureLog, for the first subscription.
abbrev pub changes : Env → List (Option CString × Option CString) → List (Env × Event)
changes e [] = []
changes e ((status, log) ∷ l) = (e, image_changed 0 status log) ∷ changes e l

abbrev pub fails : Option CString → Bool
fails none = false
fails (some status) = is_failure status

abbrev pub AllFine : List (Option CString × Option CString) → Type 0
AllFine l = All (λ p. fails p.0 ≡ false) l

changes-fine :
    (e : Env) (i : ℕ) (l : List (Option CString × Option CString)) (events : List (Env × Event))
    (w : World)
    → AllFine l
    → run_events (changes e l ++ events) w ≡ run_events events w
unfolding run_events handle image_notification
changes-fine e i [] events w fine = refl
changes-fine e i ((none, log) ∷ l) events w fine =
    elim (Option-cases (get_elem? w.subscriptions 0)) [
      | inl k ↦ ground (arith, k, changes-fine e i l events w fine.1)
      | inr (j, k) ↦ ground (arith, k, changes-fine e i l events w fine.1)
    ]
changes-fine e i ((some status, log) ∷ l) events w fine =
    elim (Option-cases (get_elem? w.subscriptions 0)) [
      | inl k ↦ ground (arith, k, fine, changes-fine e i l events w fine.1)
      | inr (j, k) ↦ ground (arith, k, fine, changes-fine e i l events w fine.1)
    ]

changes-unheard :
    (e : Env) (l : List (Option CString × Option CString)) (w : World)
    → w.subscriptions ≡ []
    → run_events (changes e l) w ≡ w
unfolding run_events handle
changes-unheard e [] w none_left = refl
changes-unheard e ((status, log) ∷ l) w none_left =
    ground (arith, none_left, changes-unheard e l w none_left)

-- The instance of an upgrade whose image failed with a log.
abbrev pub failed_with : CString → AcsTransfer → AcsTransfer
failed_with log t = record t {
  status = finished;
  complete_time = unknown_time;
  fault_code = image_fault log;
  fault_string = get_fault_string (image_fault log);
}

-- The first notification of a failure decides how an upgrade ends: with no other upgrade, after its
-- start succeeded, any notifications without a failure, one of a failure, and any further ones, the
-- instance is Finished with the fault code of that failure's log and the unknown time.
pub first_failure-decides :
    (e : Env) (i : ℕ) (t : AcsTransfer) (status : CString) (log : Option CString)
    (before after : List (Option CString × Option CString)) (w : World)
    → w.transfers i ≡ some t
    → w.subscriptions ≡ []
    → e.subscribe_fails ≡ false
    → e.image_call_fails ≡ false
    → e.unsubscribe_fails ≡ false
    → AllFine before
    → is_failure status ≡ true
    → (run_events
          (changes e before ++ (e, image_changed 0 (some status) log) ∷ changes e after)
          (download_timer_cb e i w)).transfers
        i
      ≡ some (failed_with (Option.get_or log []) t)
unfolding run_events handle image_notification update_transfer_obj put_transfer del_subscription
    remove_first set_fault
first_failure-decides e i t status log before after w here alone sub call unsub fine fail =
    let w' = download_timer_cb e i w in
    let start = download_timer_outcome e i t w here (ground (arith, alone)) unsub in
    let here' : w'.transfers i ≡ some (record t { status = applying }) =
      ground (arith, start, sub, call) in
    let only : w'.subscriptions ≡ i ∷ [] = ground (arith, start, sub, call, alone) in
    let w'' = handle e (image_changed 0 (some status) log) w' in
    let unheard : w''.subscriptions ≡ [] = ground (arith, only, here', fail, unsub) in
    let end : w''.transfers i ≡ some (failed_with (Option.get_or log []) t) =
      ground (arith, only, here', fail, unsub) in
    rw (changes-fine e i before ((e, image_changed 0 (some status) log) ∷ changes e after) w' fine)
      (rw (changes-unheard e after w'' unheard) end)
