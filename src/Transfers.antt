-- ===== src/Transfers.antt =====
-- The scheduled downloads of the data model's plugin: cwmp_plugin/transfers.c, transfers_dm.c,
-- transfers_firmware.c and transfers_timewindow.c, and their types in include_priv/transfers.h. An
-- instance ManagementServer.Transfers.ScheduleDownload.{i}. is the entry `i` of the store, and a
-- pointer to it is `i`; `none` there is NULL. A transaction on the data model is taken to succeed;
-- it queues an event where a Status changes to a value for which the plugin has a handler.
pub mod Defs
pub mod Window
pub mod Firmware
pub mod Clean
pub mod Engine
pub mod Events
pub mod Resume
pub mod Exclusion
pub mod Passage
pub mod Notice
pub mod Retry
pub mod Outcome
mod Examples
