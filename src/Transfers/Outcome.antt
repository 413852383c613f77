-- ===== src/Transfers/Outcome.antt =====
-- What the functions on a transfer leave alone, and what a start leaves behind.
use tr069_manager.Base.{ℕ, ◌≡◌, ap, ◌∙◌, Bool, true, false, none, some, [], ◌∷◌, ◌++◌, arith}
use tr069_manager.Transfers.Defs.{
  done, Transfer, transfer_failed, Download, World, is_firmware, is_empty_text, status_of_text,
  status_text, put_transfer, get_status, set_status, update_transfercomplete,
}
use tr069_manager.Transfers.Firmware.{do_firmwareupgrade, is_current, firmware_transfer_done}
use tr069_manager.Transfers.Engine.{start_transfer, transfer_done}

-- An entry of the store that a download can be made for.
pub record IsReady (t : Transfer) (d : Download) : Type 0 where
  pub firmware : is_firmware t.file_type ≡ true
  pub filled : is_empty_text t.file_type ≡ false
  pub url_is : t.url ≡ some d.url
  pub username_is : t.username ≡ some d.username
  pub password_is : t.password ≡ some d.password

abbrev pub failed_transfer : Transfer → Transfer
failed_transfer t = record t {
  status = "Failed";
  fault_code = 9002;
  fault_string = "Failed to perform upgrade";
}

pub failed-IsReady : (t : Transfer) (d : Download) → IsReady t d → IsReady (failed_transfer t) d
failed-IsReady t d r = record {
  firmware = r.firmware;
  filled = r.filled;
  url_is = r.url_is;
  username_is = r.username_is;
  password_is = r.password_is;
}

module _ (w : World) (i : ℕ) (t : Transfer) (d : Download) (here : w.transfers i ≡ some t)
    (r : IsReady t d) where
  pub start_fails_transfer :
      w.current ≡ none → (start_transfer false i w).transfers i ≡ some (failed_transfer t)
  unfolding start_transfer set_status update_transfercomplete do_firmwareupgrade put_transfer
      status_text
  start_fails_transfer free = ground (arith, here, free, r)

  pub start_fails_rest :
      w.current ≡ none
      → ((start_transfer false i w).current ≡ none)
        × ((start_transfer false i w).events ≡ w.events ++ transfer_failed i ∷ [])
        × ((start_transfer false i w).downloads ≡ w.downloads ++ d ∷ [])
  unfolding start_transfer set_status update_transfercomplete do_firmwareupgrade put_transfer
      status_text
  start_fails_rest free =
      (ground (arith, here, free, r), ground (arith, here, free, r), ground (arith, here, free, r))

  -- While some upgrade is in progress, a start gives up without a call of Download().
  pub start_busy :
      (ok : Bool) (j : ℕ)
      → w.current ≡ some j
      → let w' = start_transfer ok i w in
        (w'.transfers i ≡ some (failed_transfer t))
        × (w'.current ≡ some j)
        × (w'.downloads ≡ w.downloads)
  unfolding start_transfer set_status update_transfercomplete do_firmwareupgrade put_transfer
      status_text
  start_busy ok j busy =
      (ground (arith, here, busy, r), ground (arith, here, busy, r), ground (arith, here, busy, r))

module _ (w : World) (i : ℕ) (t : Transfer) (here : w.transfers i ≡ some t) where
  set_done :
      ((set_status i done w).transfers i ≡ some (record t { status = "Done" }))
      × ((set_status i done w).current ≡ w.current)
      × ((set_status i done w).events ≡ w.events)
      × ((set_status i done w).downloads ≡ w.downloads)
  unfolding set_status put_transfer status_text
  set_done =
      (ground (arith, here), ground (arith, here), ground (arith, here), ground (arith, here))

firmware_transfer_done_effect :
    (w : World) (i : ℕ)
    → ((firmware_transfer_done i w).transfers i ≡ w.transfers i)
      × ((firmware_transfer_done i w).events ≡ w.events)
      × ((firmware_transfer_done i w).downloads ≡ w.downloads)
      × (w.current ≡ none → (firmware_transfer_done i w).current ≡ none)
unfolding firmware_transfer_done
firmware_transfer_done_effect w i =
    (ground arith, ground arith, ground arith, λ e. ground (arith, e))

-- The end of a transfer that is `i`'s own gives its upgrade up.
firmware_transfer_done_own :
    (w : World) (i : ℕ) (t : Transfer)
    → w.transfers i ≡ some t
    → w.current ≡ some i
    → (firmware_transfer_done i w).current ≡ none
unfolding firmware_transfer_done
firmware_transfer_done_own w i t here own = ground (arith, here, own)

transfer_done_lem :
    (w : World) (i : ℕ) (t : Transfer) (d : Download)
    → w.transfers i ≡ some t
    → IsReady t d
    → transfer_done i w ≡ set_status i done (firmware_transfer_done i w)
unfolding transfer_done
transfer_done_lem w i t d here r = ground (arith, here, r.firmware, r.filled)

status_done :
    (w : World) (i : ℕ) (t : Transfer)
    → w.transfers i ≡ some (record t { status = "Done" })
    → get_status w i ≡ done
unfolding get_status status_of_text
status_done w i t e = ground (arith, e)

-- The end of a transfer sets its Status, and gives an upgrade of its own up.
pub transfer_done_effect :
    (w : World) (i : ℕ) (t : Transfer) (d : Download)
    → w.transfers i ≡ some t
    → IsReady t d
    → let w' = transfer_done i w in
      (get_status w' i ≡ done)
      × (w'.transfers i ≡ some (record t { status = "Done" }))
      × (w'.events ≡ w.events)
      × (w'.downloads ≡ w.downloads)
      × (w.current ≡ none → w'.current ≡ none)
      × (w.current ≡ some i → w'.current ≡ none)
transfer_done_effect w i t d here r =
    let v = firmware_transfer_done i w in
    let f = firmware_transfer_done_effect w i in
    let s = set_done v i t (f.0 ∙ here) in
    rw (transfer_done_lem w i t d here r) (
      status_done (set_status i done v) i t s.0,
      s.0,
      s.2 ∙ f.1,
      s.3 ∙ f.2,
      λ e. s.1 ∙ f.3 e,
      λ e. s.1 ∙ firmware_transfer_done_own w i t here e,
    )

-- After the end of a transfer no upgrade of its own is in progress.
pub transfer_done-is_current :
    (w : World) (i : ℕ) (t : Transfer) (d : Download)
    → w.transfers i ≡ some t
    → IsReady t d
    → is_current (transfer_done i w).current i ≡ false
unfolding firmware_transfer_done
transfer_done-is_current w i t d here r =
    let v = firmware_transfer_done i w in
    let s = set_done v i t ((firmware_transfer_done_effect w i).0 ∙ here) in
    rw (transfer_done_lem w i t d here r) (ap (λ c. is_current c i) s.1 ∙ ground (arith, here))
