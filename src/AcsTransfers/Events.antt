-- ===== src/AcsTransfers/Events.antt =====
-- cwmp_plugin/cwmp_plugin_transfer.c: the calls, timers, answers and notifications that reach it.
use tr069_manager.Base.{ℕ, zero, suc, Option, none, some, List, [], ◌∷◌, ◌++◌, CString, get_elem?}
use tr069_manager.AcsTransfers.Defs.{Args, Request, Result, Completion, send, World, Env, perform}
use tr069_manager.AcsTransfers.Upload.{
  upload_complete_notification, selftest_call_done, upload_prepare,
}
use tr069_manager.AcsTransfers.Firmware.{image_notification, download_timer_cb}
use tr069_manager.AcsTransfers.Download.{request_cb, request_prepare}

-- The element at a place of a list and the list without it.
unfoldable pub pick {ℓ} : {A : Type ℓ} → ℕ → List A → Option (A × List A)
pick n [] = none
pick zero (x ∷ l) = some (x, l)
pick (suc n) (x ∷ l) = elim (pick n l) [ none ↦ none | some (y, l') ↦ some (y, x ∷ l') ]

-- The numbers are places in the lists of the timers and of the requests.
pub data Event : Type 0 where
  add_transfer : Args → Event
  download_timer_expired : ℕ → Event
  start_timer_expired : ℕ → Event
  upload_timer_expired : ℕ → Event
  request_ended : ℕ → Result → Event
  self_test_ended : ℕ → ℕ → Event
  transfer_completed : Completion → Event
  image_changed : ℕ → Option CString → Option CString → Event

-- start_timer_cb
unfoldable pub start_timer_cb : Request → World → World
start_timer_cb req w = record (perform (send req) w) { requests = w.requests ++ req ∷ [] }

-- What an event of a list does with the element and the state without it.
unfoldable pub with_picked {ℓ} :
    {A : Type ℓ} → Option (A × List A) → (A → List A → World → World) → World → World
with_picked none f w = w
with_picked (some (x, l)) f w = f x l w

unfoldable pub handle : Env → Event → World → World
handle e (add_transfer args) w = (request_prepare e args w).0
handle e (download_timer_expired n) w =
    with_picked (pick n w.download_timers)
      (λ x l w. download_timer_cb e x.0 (record w { download_timers = l })) w
handle e (start_timer_expired n) w =
    with_picked (pick n w.start_timers)
      (λ x l w. start_timer_cb x.0 (record w { start_timers = l })) w
handle e (upload_timer_expired n) w =
    with_picked (pick n w.upload_timers)
      (λ x l w. upload_prepare e x.0 (record w { upload_timers = l })) w
handle e (request_ended n r) w =
    with_picked (pick n w.requests) (λ x l w. request_cb r x (record w { requests = l })) w
handle e (self_test_ended n status) w =
    with_picked (pick n w.selftest_requests)
      (λ x l w. selftest_call_done e status x (record w { selftest_requests = l })) w
handle e (transfer_completed c) w = upload_complete_notification e c w
handle e (image_changed n status log) w = elim (get_elem? w.subscriptions n) [
  | none ↦ w
  | some i ↦ image_notification e i status log w
]

unfoldable pub run_events : List (Env × Event) → World → World
run_events [] w = w
run_events ((e, event) ∷ events) w = run_events events (handle e event w)
