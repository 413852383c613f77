-- ===== src/Xmpp.antt =====
-- The XMPP connection of the connection requests (cwmp_plugin_xmpp.c of cwmp_plugin).
pub mod Defs
pub mod Events
pub mod Following
pub mod Examples
