-- ===== src/Devices.antt =====
-- The manageable devices of the LAN (cwmp_plugin_manageable_device.c of cwmp_plugin).
pub mod Defs
pub mod Table
pub mod Query
pub mod Events
pub mod Hosts
pub mod Waiting
pub mod Retry
pub mod Examples
