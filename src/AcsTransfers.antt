-- ===== src/AcsTransfers.antt =====
-- The transfers that the ACS orders at once (cwmp_plugin/cwmp_plugin_transfer.c): uploads, downloads
-- of files and upgrades of the firmware image.
pub mod Defs
pub mod Status
pub mod Upload
pub mod Firmware
pub mod Download
pub mod Events
pub mod Tracked
pub mod Keeping
pub mod Passing
pub mod Waiting
pub mod Tracking
pub mod Upgrade
pub mod Files
pub mod Ended
pub mod Prefix
pub mod Examples
