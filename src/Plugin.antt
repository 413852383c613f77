-- ===== src/Plugin.antt =====
-- The plugin's address for connection requests and the daemon that it starts (cwmp_plugin.c and
-- cwmp_plugin_connection_request.c, cwmp_plugin_service.c, cwmp_plugin_intf_queries.c of
-- cwmp_plugin).
pub mod Defs
pub mod Path
pub mod Service
pub mod Url
pub mod Interface
pub mod Events
pub mod Held
pub mod Choice
pub mod Settled
pub mod Chars
pub mod Port
pub mod Current
pub mod Announced
pub mod Examples
