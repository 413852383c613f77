-- ===== src/Transfers/Retry.antt =====
-- The retries of a transfer whose download fails every time.
use tr069_manager.Base.{
  ℕ, zero, suc, ◌≡◌, refl, sym, ap, ◌∙◌, true, false, none, some, List, [], ◌∷◌, ◌++◌, append-nil,
  arith, pos, get_elem?, set, replicate,
}
use tr069_manager.Transfers.Defs.{
  done, TimeWindow, Transfer, transfer_failed, Download, World, mode_of_text, put_transfer,
  get_status,
}
use tr069_manager.Transfers.Window.{get_mode, set_maxretries, get_maxretries}
use tr069_manager.Transfers.Engine.{is_automatic, start_transfer, transfer_done}
use tr069_manager.Transfers.Events.{schedule_download_transfer_failed, handle_event, dispatch}
use tr069_manager.Transfers.Outcome.{
  IsReady, failed_transfer, failed-IsReady, start_fails_transfer, start_fails_rest,
  transfer_done_effect,
}

-- The transfer is within its last window, of an automatic mode, which has `n` retries left.
pub record InLastWindow (t : Transfer) (n : ℕ) : Type 0 where
  pub last : ℕ
  pub info_is :
      t.info
      ≡ some (record { number_of_windows = suc last; last_window = suc last; within_window = true })
  pub window : TimeWindow
  pub window_is : get_elem? t.windows last ≡ some window
  pub automatic : is_automatic (mode_of_text window.window_mode) ≡ true
  pub retries : window.max_retries ≡ pos n

-- The download has just failed, and the event that says so is the only one in the queue.
pub record HasFailed (w : World) (i : ℕ) (d : Download) (n : ℕ) : Type 0 where
  pub transfer : Transfer
  pub here : w.transfers i ≡ some transfer
  pub ready : IsReady transfer d
  pub place : InLastWindow transfer n
  pub code : transfer.fault_code ≡ 9002
  pub event : w.events ≡ transfer_failed i ∷ []
  pub free : w.current ≡ none

get_elem?-set :
    {A : Type 0} (l : List A) (k : ℕ) (a b : A)
    → get_elem? l k ≡ some a
    → get_elem? (set l k b) k ≡ some b
get_elem?-set [] k a b h = cc
get_elem?-set (x ∷ l) zero a b h = refl
get_elem?-set (x ∷ l) (suc k) a b h = get_elem?-set l k a b h

abbrev lower_retries : Transfer → ℕ → TimeWindow → ℕ → Transfer
lower_retries t last tw n = record t {
  windows = set t.windows last (record tw { max_retries = pos n });
}

module _ (w : World) (i n : ℕ) (d : Download) (f : HasFailed w i d (suc n)) where
  open f use {transfer, here, ready, place, event, free}
  open place use {last, info_is, window, window_is, automatic, retries}

  lowered : World
  lowered = put_transfer i (lower_retries transfer last window n) (record w { events = [] })

  dispatch-lowered : dispatch false w ≡ start_transfer false i lowered
  unfolding dispatch handle_event schedule_download_transfer_failed set_maxretries get_mode
      get_maxretries lowered put_transfer
  dispatch-lowered = ground (arith, event, here, info_is, window_is, automatic, retries, place)

  lowered-here : lowered.transfers i ≡ some (lower_retries transfer last window n)
  unfolding lowered put_transfer
  lowered-here = ground arith

  lowered-IsReady : IsReady (lower_retries transfer last window n) d
  lowered-IsReady = record {
    firmware = ready.firmware;
    filled = ready.filled;
    url_is = ready.url_is;
    username_is = ready.username_is;
    password_is = ready.password_is;
  }

  lowered-place : InLastWindow (failed_transfer (lower_retries transfer last window n)) n
  lowered-place = record {
    last = last;
    info_is = info_is;
    window = record window { max_retries = pos n };
    window_is = get_elem?-set transfer.windows last window _ window_is;
    automatic = automatic;
    retries = refl;
  }

  dispatch-HasFailed :
      HasFailed (dispatch false w) i d n × ((dispatch false w).downloads ≡ w.downloads ++ d ∷ [])
  unfolding lowered put_transfer
  dispatch-HasFailed =
      let rest =
        start_fails_rest lowered i (lower_retries transfer last window n) d lowered-here
          lowered-IsReady free in
      rw dispatch-lowered (
        record {
          transfer = failed_transfer (lower_retries transfer last window n);
          here = start_fails_transfer lowered i _ d lowered-here lowered-IsReady free;
          ready = failed-IsReady _ d lowered-IsReady;
          place = lowered-place;
          code = refl;
          event = rest.1;
          free = rest.0;
        },
        rest.2,
      )

-- The transfer is over, with the fault of its last failure, and nothing is left to handle.
pub record HasEnded (w : World) (i : ℕ) : Type 0 where
  pub transfer : Transfer
  pub here : w.transfers i ≡ some transfer
  pub over : get_status w i ≡ done
  pub code : transfer.fault_code ≡ 9002
  pub quiet : w.events ≡ []
  pub free : w.current ≡ none

dispatch-done :
    (w : World) (i : ℕ) (d : Download)
    → HasFailed w i d 0
    → dispatch false w ≡ transfer_done i (record w { events = [] })
unfolding dispatch handle_event schedule_download_transfer_failed get_mode get_maxretries
dispatch-done w i d f =
    ground (
      arith, f.event, f.here, f.place.info_is, f.place.window_is, f.place.automatic,
      f.place.retries,
    )

dispatch-HasEnded :
    (w : World) (i : ℕ) (d : Download)
    → HasFailed w i d 0
    → HasEnded (dispatch false w) i × ((dispatch false w).downloads ≡ w.downloads)
dispatch-HasEnded w i d f =
    let e = transfer_done_effect (record w { events = [] }) i f.transfer d f.here f.ready in
    rw (dispatch-done w i d f) (
      record {
        transfer = record transfer { status = "Done" };
        here = e.1;
        over = e.0;
        code = f.code;
        quiet = e.2;
        free = e.4 f.free;
      },
      e.3,
    )
  where
    open f use {transfer}

-- Events are handled one after the other, and every call of Download() fails.
pub dispatch_times : ℕ → World → World
dispatch_times zero w = w
dispatch_times (suc n) w = dispatch_times n (dispatch false w)

append_one : (l m : List Download) (d : Download) → (l ++ d ∷ []) ++ m ≡ l ++ d ∷ m
append_one [] m d = refl
append_one (x ∷ l) m d = ap (◌∷◌ x) (append_one l m d)

retries_run :
    (n : ℕ) (w : World) (i : ℕ) (d : Download)
    → HasFailed w i d n
    → HasEnded (dispatch_times (suc n) w) i
      × ((dispatch_times (suc n) w).downloads ≡ w.downloads ++ replicate n d)
unfolding dispatch_times
retries_run zero w i d f =
    let e = dispatch-HasEnded w i d f in (e.0, e.1 ∙ sym (append-nil w.downloads))
retries_run (suc n) w i d f =
    let s = dispatch-HasFailed w i n d f in
    let r = retries_run n (dispatch false w) i d s.0 in
    (r.0, r.1 ∙ ap (λ l. l ++ replicate n d) s.1 ∙ append_one w.downloads (replicate n d) d)

-- A start within the last window, whose mode is automatic and which has `n` retries, where no
-- upgrade is in progress and no event waits, and every call of Download() fails: after n + 1 events
-- the transfer is Done with fault 9002, nothing is left in the queue or in progress, and Download()
-- was called n + 1 times with the transfer's URL and credentials.
pub start_retries_end :
    (n : ℕ) (w : World) (i : ℕ) (t : Transfer) (d : Download)
    → w.transfers i ≡ some t
    → IsReady t d
    → InLastWindow t n
    → w.events ≡ []
    → w.current ≡ none
    → let w' = dispatch_times (suc n) (start_transfer false i w) in
      HasEnded w' i × (w'.downloads ≡ w.downloads ++ replicate (suc n) d)
start_retries_end n w i t d here r p quiet free =
    (run.0, run.1 ∙ ap (λ l. l ++ replicate n d) rest.2 ∙ append_one w.downloads (replicate n d) d)
  where
    rest :
        ((start_transfer false i w).current ≡ none)
        × ((start_transfer false i w).events ≡ w.events ++ transfer_failed i ∷ [])
        × ((start_transfer false i w).downloads ≡ w.downloads ++ d ∷ [])
    rest = start_fails_rest w i t d here r free

    first : HasFailed (start_transfer false i w) i d n
    first = record {
      transfer = failed_transfer t;
      here = start_fails_transfer w i t d here r free;
      ready = failed-IsReady t d r;
      place = record {
        last = p.last;
        info_is = p.info_is;
        window = p.window;
        window_is = p.window_is;
        automatic = p.automatic;
        retries = p.retries;
      };
      code = refl;
      event = rest.1 ∙ ap (λ l. l ++ transfer_failed i ∷ []) quiet;
      free = rest.0;
    }

    run :
        HasEnded (dispatch_times (suc n) (start_transfer false i w)) i
        × ((dispatch_times (suc n) (start_transfer false i w)).downloads
            ≡ (start_transfer false i w).downloads ++ replicate n d)
    run = retries_run n (start_transfer false i w) i d first
