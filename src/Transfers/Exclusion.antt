-- ===== src/Transfers/Exclusion.antt =====
-- One upgrade at a time.
use tr069_manager.Base.{
  ℕ, String, ◌≡◌, ◌∙◌, inl, inr, Bool, true, false, Option, none, some, arith, Option-cases, ℤ,
  pred_int,
}
use tr069_manager.Transfers.Defs.{
  TransferStatus, in_progress, failed, done, Event, transfer_failed, window_started, window_ended,
  World, find_window, put_transfer, set_status, update_transfercomplete,
}
use tr069_manager.Transfers.Window.{set_maxretries}
use tr069_manager.Transfers.Firmware.{do_firmwareupgrade, firmware_transfer_done}
use tr069_manager.Transfers.Engine.{start_transfer, transfer_done, handle_transfer}
use tr069_manager.Transfers.Events.{
  timewindow_started, timewindow_ended, schedule_download_transfer_failed, handle_event,
}

-- The calls of Download() and the upgrade in progress are as before.
abbrev pub SameUpgrade : World → World → Type 0
SameUpgrade w w' = (w'.downloads ≡ w.downloads) × (w'.current ≡ w.current)

set_status-SameUpgrade : (i : ℕ) (s : TransferStatus) (w : World) → SameUpgrade w (set_status i s w)
unfolding set_status put_transfer
set_status-SameUpgrade i s w = (ground arith, ground arith)

pub update-SameUpgrade :
    (i : ℕ) (c : Option ℕ) (s : Option String) (w : World)
    → SameUpgrade w (update_transfercomplete i c s w)
unfolding update_transfercomplete put_transfer
update-SameUpgrade i c s w = (ground arith, ground arith)

set_maxretries-SameUpgrade : (i k : ℕ) (n : ℤ) (w : World) → SameUpgrade w (set_maxretries i k n w)
unfolding set_maxretries put_transfer
set_maxretries-SameUpgrade i k n w = (ground arith, ground arith)

transfer_done-downloads : (i : ℕ) (w : World) → (transfer_done i w).downloads ≡ w.downloads
unfolding transfer_done firmware_transfer_done
transfer_done-downloads i w = ground (
  arith,
  (set_status-SameUpgrade i done (firmware_transfer_done i w)).0,
  (set_status-SameUpgrade i done w).0,
  (set_status-SameUpgrade i done (record w { current = none })).0,
)

-- Whatever is asked for, an upgrade in progress is not replaced and no other one is begun.
do_firmwareupgrade_busy :
    (ok : Bool) (i j : ℕ) (w : World) → w.current ≡ some j → do_firmwareupgrade ok i w ≡ (w, false)
unfolding do_firmwareupgrade
do_firmwareupgrade_busy ok i j w busy = ground (arith, busy)

start_transfer-SameUpgrade :
    (ok : Bool) (i j : ℕ) (w : World) → w.current ≡ some j → SameUpgrade w (start_transfer ok i w)
unfolding start_transfer
start_transfer-SameUpgrade ok i j w busy =
    let a = set_status i in_progress w in
    let sa = set_status-SameUpgrade i in_progress w in
    let b = update_transfercomplete i (some 9002) (some "Failed to perform upgrade") a in
    let sb = update-SameUpgrade i (some 9002) (some "Failed to perform upgrade") a in
    let sc = set_status-SameUpgrade i failed b in
    let stuck = do_firmwareupgrade_busy ok i j a (sa.1 ∙ busy) in
    (ground (arith, stuck, sa.0, sb.0, sc.0), ground (arith, stuck, sa.1, sb.1, sc.1))

handle_transfer-downloads :
    (ok : Bool) (i j : ℕ) (w : World)
    → w.current ≡ some j
    → (handle_transfer ok i w).downloads ≡ w.downloads
unfolding handle_transfer
handle_transfer-downloads ok i j w busy =
    let b = update_transfercomplete i (some 9002) (some "TimeWindow(s) ended") w in
    ground (
      arith,
      (start_transfer-SameUpgrade ok i j w busy).0,
      transfer_done-downloads i b,
      (update-SameUpgrade i (some 9002) (some "TimeWindow(s) ended") w).0,
    )

failed-downloads :
    (ok : Bool) (i j : ℕ) (w : World)
    → w.current ≡ some j
    → (schedule_download_transfer_failed ok i w).downloads ≡ w.downloads
unfolding schedule_download_transfer_failed
failed-downloads ok i j w busy = elim (Option-cases (w.transfers i)) [
  | inl e ↦ ground (arith, e)
  | inr (t, e) ↦ elim (Option-cases t.info) [
    | inl f ↦ ground (arith, e, f)
    | inr (info, f) ↦ elim (Option-cases (find_window info.last_window t.windows)) [
      | inl g ↦ ground (arith, e, f, g)
      | inr (tw, g) ↦
          let m = set_maxretries i info.last_window (pred_int tw.max_retries) w in
          let sm = set_maxretries-SameUpgrade i info.last_window (pred_int tw.max_retries) w in
          ground (
            arith,
            e,
            f,
            g,
            transfer_done-downloads i w,
            sm.0,
            (start_transfer-SameUpgrade ok i j m (sm.1 ∙ busy)).0,
          )
    ]
  ]
]

started-downloads :
    (ok : Bool) (i k j : ℕ) (w : World)
    → w.current ≡ some j
    → (timewindow_started ok i k w).downloads ≡ w.downloads
unfolding timewindow_started put_transfer
started-downloads ok i k j w busy = elim (Option-cases (w.transfers i)) [
  | inl e ↦ ground (arith, e)
  | inr (t, e) ↦ elim (Option-cases t.info) [
    | inl f ↦ ground (arith, e, f)
    | inr (info, f) ↦
        let info' = record info { within_window = true; last_window = k } in
        let v = put_transfer i (record t { info = some info' }) w in
        ground (arith, e, f, handle_transfer-downloads ok i j v busy)
  ]
]

ended-downloads :
    (ok : Bool) (i j : ℕ) (w : World)
    → w.current ≡ some j
    → (timewindow_ended ok i w).downloads ≡ w.downloads
unfolding timewindow_ended put_transfer
ended-downloads ok i j w busy = elim (Option-cases (w.transfers i)) [
  | inl e ↦ ground (arith, e)
  | inr (t, e) ↦ elim (Option-cases t.info) [
    | inl f ↦ ground (arith, e, f)
    | inr (info, f) ↦
        let info' = record info { within_window = false } in
        let v = put_transfer i (record t { info = some info' }) w in
        ground (arith, e, f, handle_transfer-downloads ok i j v busy)
  ]
]

-- While an upgrade is in progress, no event of the data model makes a call of Download().
pub handle_event-downloads :
    (ok : Bool) (e : Event) (j : ℕ) (w : World)
    → w.current ≡ some j
    → (handle_event ok e w).downloads ≡ w.downloads
unfolding handle_event
handle_event-downloads ok (transfer_failed i) j w busy = failed-downloads ok i j w busy
handle_event-downloads ok (window_started i k) j w busy = started-downloads ok i k j w busy
handle_event-downloads ok (window_ended i k) j w busy = ended-downloads ok i j w busy
