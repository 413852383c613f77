-- ===== src/Transfers/Firmware.antt =====
-- cwmp_plugin/transfers_firmware.c without its notification (Transfers/Engine.antt): one upgrade at
-- a time. What the call of Download() returns is an argument, true for 0.
use tr069_manager.Base.{
  ℕ, String, Bool, true, false, ◌&&◌, Option, none, some, [], ◌∷◌, ◌++◌, ◌==◌, if◌then◌else◌,
  is_some,
}
use tr069_manager.Transfers.Defs.{Transfer, World}

-- upgrade_firmware
upgrade_firmware : Bool → String → String → String → World → World × Bool
upgrade_firmware ok url username password w = (
  record w {
    downloads = w.downloads ++ record { url = url; username = username; password = password } ∷ [];
  },
  ok,
)

-- The three arguments are read one after the other, and a missing one ends the upgrade.
upgrade_with : Bool → Transfer → World → World × Bool
unfolding upgrade_firmware
upgrade_with ok t w = elim t.url [
  | none ↦ (w, false)
  | some url ↦ elim t.username [
    | none ↦ (w, false)
    | some username ↦ elim t.password [
      | none ↦ (w, false)
      | some password ↦ upgrade_firmware ok url username password w
    ]
  ]
]

-- On a failure the upgrade that this call began is given up.
finish_upgrade : World × Bool → World × Bool
finish_upgrade (w, true) = (w, true)
finish_upgrade (w, false) = (record w { current = none }, false)

-- transfers_firmware_do_firmwareupgrade; true for 0.
unfoldable pub do_firmwareupgrade : Bool → ℕ → World → World × Bool
unfolding upgrade_with finish_upgrade
do_firmwareupgrade ok i w = elim (w.transfers i) [
  | none ↦ (w, false)
  | some t ↦ elim w.current [
    | some j ↦ (w, false)
    | none ↦ finish_upgrade (upgrade_with ok t (record w { current = some i }))
  ]
]

abbrev pub is_current : Option ℕ → ℕ → Bool
is_current none i = false
is_current (some j) i = j == i

-- transfers_firmware_transfer_done
unfoldable pub firmware_transfer_done : ℕ → World → World
firmware_transfer_done i w =
    if is_some (w.transfers i) && is_current w.current i then record w { current = none } else w

-- transfers_firmware_init and transfers_firmware_clean, without the subscription.
pub firmware_init : World → World
firmware_init w = record w { current = none }

pub firmware_clean : World → World
firmware_clean w = record w { current = none }
