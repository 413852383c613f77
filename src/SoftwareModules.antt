-- ===== src/SoftwareModules.antt =====
-- The changes of deployment units that the ACS orders (smm.c of cwmp_plugin).
pub mod Defs
pub mod Operation
pub mod Events
pub mod Single
pub mod Writes
pub mod Invariant
pub mod Complete
pub mod Repeated
pub mod Examples
