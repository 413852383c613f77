-- ===== src/AcsTransfers/Tracking.antt =====
-- No upload of cwmp_plugin/cwmp_plugin_transfer.c is lost, whatever happens.
use tr069_manager.Base.{
  ℕ, ◌*◌, ◌%◌, ◌^◌, ◌<◌, ◌≡◌, inl, inr, true, false, List, [], ◌∷◌, arith, ◌==◌, Option-cases,
  is_some, All,
}
use tr069_manager.AcsTransfers.Defs.{Args, Result, send, World, Env, perform}
use tr069_manager.AcsTransfers.Upload.{upload_start}
use tr069_manager.AcsTransfers.Firmware.{download_timer_cb}
use tr069_manager.AcsTransfers.Download.{request_cb, request_prepare}
use tr069_manager.AcsTransfers.Events.{
  pick, Event, add_transfer, download_timer_expired, start_timer_expired, upload_timer_expired,
  request_ended, self_test_ended, transfer_completed, image_changed, start_timer_cb, with_picked,
  handle, run_events,
}
use tr069_manager.AcsTransfers.Tracked.{any-append, has_type, is_upload_of, perform-Adds}
use tr069_manager.AcsTransfers.Passing.{
  download_timer_cb-Adds, request_cb-Adds, request_prepare-Adds,
}
use tr069_manager.AcsTransfers.Waiting.{
  IsTracked, Reaches, Adds-IsTracked, timer-IsTracked, self_test-IsTracked, completion-IsTracked,
  image-IsTracked,
}

download_timer-IsTracked :
    (i n : ℕ) (e : Env) (w : World)
    → IsTracked i w
    → IsTracked i (handle e (download_timer_expired n) w)
unfolding handle with_picked
download_timer-IsTracked i n e w old = elim (Option-cases (pick n w.download_timers)) [
  | inl k ↦ rw (k, handle) old
  | inr (((j, delay), l), k) ↦
      let w' = record w { download_timers = l } in
      rw (k, handle)
        (Adds-IsTracked i w' (download_timer_cb e j w') (download_timer_cb-Adds i j e w') old)
]

start_timer-IsTracked :
    (i n : ℕ) (e : Env) (w : World)
    → IsTracked i w
    → IsTracked i (handle e (start_timer_expired n) w)
unfolding handle with_picked start_timer_cb
start_timer-IsTracked i n e w old = elim (Option-cases (pick n w.start_timers)) [
  | inl k ↦ rw (k, handle) old
  | inr (((req, delay), l), k) ↦
      let w' = record w { start_timers = l } in
      rw (k, handle)
        (Adds-IsTracked i w' (perform (send req) w') (perform-Adds i (send req) w') old)
]

request-IsTracked :
    (i n : ℕ) (r : Result) (e : Env) (w : World)
    → IsTracked i w
    → IsTracked i (handle e (request_ended n r) w)
unfolding handle with_picked
request-IsTracked i n r e w old = elim (Option-cases (pick n w.requests)) [
  | inl k ↦ rw (k, handle) old
  | inr ((req, l), k) ↦
      let w' = record w { requests = l } in
      rw (k, handle) (Adds-IsTracked i w' (request_cb r req w') (request_cb-Adds i r req w') old)
]

handle-IsTracked :
    (i : ℕ) (e : Env) (event : Event) (w : World)
    → (i == 0) ≡ false
    → Reaches e
    → IsTracked i w
    → IsTracked i (handle e event w)
unfolding handle
handle-IsTracked i e (add_transfer args) w z reach old =
    Adds-IsTracked i w (request_prepare e args w).0 (request_prepare-Adds i e args w) old
handle-IsTracked i e (download_timer_expired n) w z reach old = download_timer-IsTracked i n e w old
handle-IsTracked i e (start_timer_expired n) w z reach old = start_timer-IsTracked i n e w old
handle-IsTracked i e (upload_timer_expired n) w z reach old = timer-IsTracked i n e w z reach old
handle-IsTracked i e (request_ended n r) w z reach old = request-IsTracked i n r e w old
handle-IsTracked i e (self_test_ended n status) w z reach old =
    self_test-IsTracked i n status e w z old
handle-IsTracked i e (transfer_completed c) w z reach old = completion-IsTracked i e c w old
handle-IsTracked i e (image_changed n status log) w z reach old =
    image-IsTracked i n e status log w old

abbrev pub AllReach : List (Env × Event) → Type 0
AllReach events = All (λ p. Reaches p.0) events

run_events-IsTracked :
    (i : ℕ) (events : List (Env × Event)) (w : World)
    → (i == 0) ≡ false
    → AllReach events
    → IsTracked i w
    → IsTracked i (run_events events w)
unfolding run_events
run_events-IsTracked i [] w z reach old = old
run_events-IsTracked i ((e, event) ∷ events) w z reach old =
    run_events-IsTracked i events (handle e event w) z reach.1
      (handle-IsTracked i e event w z reach.0 old)

-- Once AddTransfer was called for an upload of a log or configuration file with an instance that
-- exists, then after any events, with the device within reach and no self test refused, the upload
-- still waits for its timer, its self test or the notification of its end, or Finished was written
-- to its instance: no upload is lost without a report.
pub upload-IsTracked :
    (e : Env) (args : Args) (events : List (Env × Event)) (w : World)
    → 0 < args.index
    → is_some (w.transfers args.index) ≡ true
    → args.is_download ≡ false
    → has_type args.file_type ≡ true
    → AllReach events
    → IsTracked args.index (run_events events (handle e (add_transfer args) w))
unfolding handle request_prepare upload_start
upload-IsTracked e args events w z here up typed reach =
    let i = args.index in
    let timer : Args × ℕ = (args, args.delay_seconds * 1000 % 2 ^ 32) in
    let old : IsTracked i (upload_start args w) = (
      ground (arith, here),
      ground (arith, typed, any-append (is_upload_of i) w.upload_timers (timer ∷ [])),
    ) in
    run_events-IsTracked i events (handle e (add_transfer args) w) (ground (arith, z)) reach
      (ground (arith, up, old))
