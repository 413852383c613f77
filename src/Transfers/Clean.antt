-- ===== src/Transfers/Clean.antt =====
-- The set-up and the clean-up of the scheduled downloads (cwmp_plugin/transfers.c).
use tr069_manager.Base.{
  ℕ, ◌≡◌, ◌≢◌, Bool, true, false, ◌&&◌, none, some, List, [], ◌∷◌, arith, if◌then◌else◌,
}
use tr069_manager.Transfers.Defs.{World, put_transfer}
use tr069_manager.Transfers.Window.{on_transfer, timewindow_del_info}
use tr069_manager.Transfers.Firmware.{firmware_init, firmware_clean}

-- transfers_transfer_del_info; the record of the instance and the timers of its windows are freed. The
-- pointer to the record stays as it was: what `info_freed` says. A later read of the record is
-- undefined; it finds no record here.
unfoldable pub transfer_del_info : ℕ → World → World
transfer_del_info i w = elim (w.transfers i) [
  | none ↦ w
  | some t ↦ elim t.info [
    | none ↦ w
    | some info ↦
        timewindow_del_info i (put_transfer i (record t { info = none; info_freed = true }) w)
  ]
]

-- transfers_init, where the timer of the deferred set-up can be made and started; the second result
-- says whether deferred_init is to come.
pub transfers_init : Bool → Bool → World → World × Bool
transfers_init made runs w = if made && runs then (firmware_init w, true) else (w, false)

-- The loop of transfers_clean over the instances.
pub clean_instances : List ℕ → World → World
clean_instances [] w = w
clean_instances (i ∷ l) w = clean_instances l (transfer_del_info i w)

pub transfers_clean : List ℕ → World → World
transfers_clean l w = firmware_clean (clean_instances l w)

-- What belongs to other instances, the upgrade in progress and the downloads stay as they are.
pub transfer_del_info-others :
    (i j : ℕ) (w : World)
    → j ≢ i
    → ((transfer_del_info j w).transfers i ≡ w.transfers i)
      × (((transfer_del_info j w).current ≡ w.current)
          × ((transfer_del_info j w).downloads ≡ w.downloads))
unfolding transfer_del_info timewindow_del_info on_transfer put_transfer
transfer_del_info-others i j w ne = (ground (arith, ne), (ground (arith, ne), ground (arith, ne)))
