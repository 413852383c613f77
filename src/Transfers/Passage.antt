-- ===== src/Transfers/Passage.antt =====
-- What the start and the end of a time window do to a transfer (cwmp_plugin/transfers.c and
-- transfers_dm.c).
use tr069_manager.Base.{ℕ, suc, String, ◌≡◌, ◌∙◌, ◌≢◌, Bool, true, false, none, some, arith}
use tr069_manager.Transfers.Defs.{
  done, TimeWindow, TransferInfo, Transfer, Download, World, status_of_text, mode_of_text,
  find_window, put_transfer, get_status, update_transfercomplete,
}
use tr069_manager.Transfers.Window.{get_mode}
use tr069_manager.Transfers.Firmware.{is_current}
use tr069_manager.Transfers.Clean.{transfer_del_info-others}
use tr069_manager.Transfers.Engine.{
  is_automatic, start_transfer, transfer_done, is_done, handle_transfer,
}
use tr069_manager.Transfers.Events.{
  timewindow_started, timewindow_ended, schedule_download_del_inst,
}
use tr069_manager.Transfers.Outcome.{
  IsReady, failed_transfer, start_busy, transfer_done_effect, transfer_done-is_current,
}
use tr069_manager.Transfers.Exclusion.{update-SameUpgrade}

-- The windows of a transfer that has a download to make, and where it stands among them.
pub record InWindow (t : Transfer) (k : ℕ) : Type 0 where
  pub info : TransferInfo
  pub info_is : t.info ≡ some info
  pub window : TimeWindow
  pub window_is : find_window (suc k) t.windows ≡ some window
  pub automatic : is_automatic (mode_of_text window.window_mode) ≡ true
  pub open_end : is_done (status_of_text t.status) ≡ false

abbrev pub entered : Transfer → TransferInfo → ℕ → Transfer
entered t info k = record t {
  info = some (record info { within_window = true; last_window = suc k });
}

entered-IsReady :
    (t : Transfer) (info : TransferInfo) (k : ℕ) (d : Download)
    → IsReady t d
    → IsReady (entered t info k) d
entered-IsReady t info k d r = record {
  firmware = r.firmware;
  filled = r.filled;
  url_is = r.url_is;
  username_is = r.username_is;
  password_is = r.password_is;
}

started-start :
    (ok : Bool) (i k : ℕ) (w : World) (t : Transfer)
    → w.transfers i ≡ some t
    → (p : InWindow t k)
    → timewindow_started ok i (suc k) w
      ≡ start_transfer ok i (put_transfer i (entered t p.info k) w)
unfolding timewindow_started handle_transfer put_transfer get_mode get_status
started-start ok i k w t here p =
    ground (arith, here, p.info_is, p.window_is, p.automatic, p.open_end)

-- When an automatic window of a transfer that is not Done starts while an upgrade is in progress,
-- be it the transfer's own from an earlier window, the transfer becomes Failed with fault 9002 and
-- the upgrade goes on.
pub started_while_busy :
    (ok : Bool) (i j k : ℕ) (w : World) (t : Transfer) (d : Download)
    → w.transfers i ≡ some t
    → IsReady t d
    → (p : InWindow t k) → w.current ≡ some j
    → let w' = timewindow_started ok i (suc k) w in
      (w'.transfers i ≡ some (failed_transfer (entered t p.info k)))
      × (w'.current ≡ some j)
      × (w'.downloads ≡ w.downloads)
unfolding put_transfer
started_while_busy ok i j k w t d here r p busy = rw (started-start ok i k w t here p) (
    start_busy (put_transfer i (entered t p.info k) w) i (entered t p.info k) d (ground arith)
      (entered-IsReady t p.info k d r) ok j busy)

-- When the instance whose upgrade is in progress is deleted, the upgrade stays in progress, and any
-- other transfer whose automatic window starts then becomes Failed with no call of Download().
pub del_inst-blocks :
    (ok : Bool) (i j k : ℕ) (w : World) (t : Transfer) (d : Download)
    → j ≢ i
    → w.current ≡ some j
    → w.transfers i ≡ some t
    → IsReady t d
    → (p : InWindow t k)
    → let w' = timewindow_started ok i (suc k) (schedule_download_del_inst j w) in
      (w'.transfers i ≡ some (failed_transfer (entered t p.info k)))
      × (w'.downloads ≡ w.downloads)
      × (w'.current ≡ some j)
      × ((schedule_download_del_inst j w).transfers j ≡ none)
unfolding schedule_download_del_inst
del_inst-blocks ok i j k w t d ne busy here r p =
    let v = schedule_download_del_inst j w in
    let o = transfer_del_info-others i j w ne in
    let here' : v.transfers i ≡ some t = ground (arith, ne, here, o.0) in
    let b = started_while_busy ok i j k v t d here' r p (o.1.0 ∙ busy) in
    (b.0, b.2 ∙ o.1.1, b.1, ground arith)

-- The end of a window that is not within: what a transfer that is not Done becomes.
abbrev pub left_window : Transfer → TransferInfo → Transfer
left_window t info = record t { info = some (record info { within_window = false }) }

ended-done :
    (ok : Bool) (i k : ℕ) (w : World) (t : Transfer)
    → w.transfers i ≡ some t
    → (p : InWindow t k) → p.info.last_window ≡ suc k
    → p.info.number_of_windows ≡ suc k
    → timewindow_ended ok i w
      ≡ transfer_done i (
          update_transfercomplete i
            (some 9002)
            (some "TimeWindow(s) ended")
            (put_transfer i (left_window t p.info) w))
unfolding timewindow_ended handle_transfer put_transfer get_mode get_status
ended-done ok i k w t here p l n =
    ground (arith, here, p.info_is, p.window_is, p.automatic, p.open_end, l, n)

update_here :
    (w : World) (i : ℕ) (t : Transfer) (c : ℕ) (s : String)
    → w.transfers i ≡ some t
    → (update_transfercomplete i (some c) (some s) w).transfers i
      ≡ some (record t { fault_code = c; fault_string = s })
unfolding update_transfercomplete put_transfer
update_here w i t c s here = ground (arith, here)

-- When the last window, an automatic one, of a transfer that is not Done ends, the transfer becomes
-- Done with fault 9002, no call of Download() is made, and no upgrade of its own is in progress.
pub last_window_ends :
    (ok : Bool) (i k : ℕ) (w : World) (t : Transfer) (d : Download)
    → w.transfers i ≡ some t
    → IsReady t d
    → (p : InWindow t k) → p.info.last_window ≡ suc k
    → p.info.number_of_windows ≡ suc k
    → let w' = timewindow_ended ok i w in
      (get_status w' i ≡ done)
      × (w'.transfers i
          ≡ some (record (left_window t p.info) {
            status = "Done";
            fault_code = 9002;
            fault_string = "TimeWindow(s) ended";
          }))
      × (w'.downloads ≡ w.downloads)
      × (is_current w'.current i ≡ false)
unfolding put_transfer
last_window_ends ok i k w t d here r p l n =
    let v = put_transfer i (left_window t p.info) w in
    let u = update_transfercomplete i (some 9002) (some "TimeWindow(s) ended") v in
    let s = update-SameUpgrade i (some 9002) (some "TimeWindow(s) ended") v in
    let t' = record (left_window t p.info) {
      fault_code = 9002;
      fault_string = "TimeWindow(s) ended";
    } in
    let ready : IsReady t' d = record {
      firmware = r.firmware;
      filled = r.filled;
      url_is = r.url_is;
      username_is = r.username_is;
      password_is = r.password_is;
    } in
    let here' = update_here v i (left_window t p.info) 9002 "TimeWindow(s) ended" (ground arith) in
    let e = transfer_done_effect u i t' d here' ready in
    rw (ended-done ok i k w t here p l n)
      (e.0, e.1, e.3 ∙ s.0, transfer_done-is_current u i t' d here' ready)
