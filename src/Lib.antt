-- ===== src/Lib.antt =====
-- The TR-069 manager: the daemon cwmpd (src/dmmain), which keeps the session with the ACS and takes
-- its connection requests, and the plugin of its data model (src/dmdeviceadapter/amx/cwmp_plugin),
-- which carries out the downloads that the ACS schedules. C code is translated function by function;
-- a static variable or an object of the data model is a field of a record that is passed on.
--
-- The parts, with the source of each:
-- Requests - the limit on connection requests, src/dmmain/cwmpd_connectionsecurity.c. The list of
--   timestamps is `Timestamps`; cwmp_server_maxConnectionsAdd,
--   ..Cleanup, ..Reached and cwmp_server_check_availability are max_connections_add,
--   max_connections_cleanup, max_connections_reached and check_availability.
-- Server - the HTTP server of the connection requests, src/dmmain/cwmpd_server.c. A request passes
--   check_server_availability (Requests), validate_uri and validate_authentication before
--   handle_request asks the engine for a session. server_start and server_stop are the life of the
--   server.
-- Cookie - the cookies of the session with the ACS, src/dmmain/cwmpd_cookie.c. cookiejar_build reads
--   a Set-Cookie header, cookiejar_to_string writes the Cookie header.
-- Client - the HTTP client of the session, src/dmmain/cwmpd_client.c, on top of Cookie. Client.Defs
--   has the static variables, Client.Auth the Authorization header, Client.Callbacks the callbacks of
--   libwebsockets with their dispatch, Client.Address the URL and the IP address of the ACS,
--   Client.Session the start, the sending and the end of a session, and Client.Certificates the files
--   of TLS.
-- Dns - the lookup of the addresses of the ACS, src/dmmain/cwmpd_dns.c. Dns.Defs has the static
--   variables and the resolvers, Dns.Answer the reading of an answer, Dns.Lookup the start of a lookup
--   with cwmp_dns_resolve, and Dns.Events the sockets, the timers and cwmp_dns_clean. The list that it
--   writes to the data model is the one that Client.Address takes the address of a session from, and
--   Dns.Session puts the two together. c-ares makes the callback of a query once, so that an event
--   `answer_came` counts only where the resolver is pending.
-- Timers - the named timers of the daemon, src/dmmain/cwmpd_timer.c, which the engine's timerStart
--   reaches: timer_start, timer_stop, timer_timeout and timer_remove_all on the list of `TimerItem`s.
-- Transfers - the scheduled downloads, transfers.c, transfers_dm.c, transfers_firmware.c and
--   transfers_timewindow.c of src/dmdeviceadapter/amx/cwmp_plugin. Transfers.Defs has the objects and
--   their statuses, Transfers.Window the time windows with their timers, Transfers.Firmware the one
--   upgrade at a time, Transfers.Engine the life of a transfer, and Transfers.Events the events of the
--   data model, which Transfers.Events.dispatch takes from a queue in their order.
-- AcsTransfers - the transfers that the ACS orders at once, cwmp_plugin_transfer.c of the same
--   directory. AddTransfer is AcsTransfers.Download.request_prepare; AcsTransfers.Upload has the
--   uploads with filetransfer_upload_prepare, AcsTransfers.Firmware the upgrades of the image with
--   download_timer_cb and firmwareimage_notification, AcsTransfers.Download the requests of
--   libfiletransfer, and AcsTransfers.Events puts them behind the timers, answers and notifications
--   that call them. An event names the place of a timer or a request in its list, so that they may come
--   in any order. An `Env` may leave the context of Device. out or refuse a self test, and then an
--   upload is lost with no report.
-- Plugin - the address of the connection requests and the process of the daemon,
--   cwmp_plugin_connection_request.c, cwmp_plugin_service.c, cwmp_plugin_intf_queries.c and
--   deferred_init_timer_cb of cwmp_plugin.c of the same directory. Plugin.Interface chooses the address
--   of the WAN interface, Plugin.Url writes host, port and URL, Plugin.Path makes the path,
--   Plugin.Service starts and stops the daemon and opens its port, and Plugin.Events tells the changes
--   of the data model, which wait in `changes`. The path is the one that Server.validate_uri tests, and
--   Plugin.Announced puts the two together.
-- SoftwareModules - the changes of deployment units, smm.c of the same directory. changeDUState is
--   SoftwareModules.Operation.change_du_state; a result and the event of the data model that follows
--   it are op_handle_results, with its two transactions, and dscc_op_done. An instance is named by its
--   place in the list.
-- Devices - the manageable devices of the LAN, cwmp_plugin_manageable_device.c of the same directory.
--   Devices.Table has the instances of ManageableDevice, Devices.Query the callback of the query, the
--   hosts, the devices that wait, md_requests, and the retries. A table that the code reads as a hash
--   table is a list in any order.
-- Xmpp - the XMPP connection of the connection requests, cwmp_plugin_xmpp.c of the same directory. The
--   changes of ConnReqXMPPConnection wait in `changes` until the data model tells them.
--
-- How C is read: a pointer that may be NULL is an Option, a C string is the list of its bytes
-- (`CString`), and a status in the data model is its text. An unsigned int keeps its wrap-around
-- (`% 2 ^ 32`), an int that is read with atoi is its word. Loops over lists are structural recursion,
-- so that no fuel is needed. Allocation and transactions on the data model are taken to succeed, but
-- for those of SoftwareModules, which an `Env` lets fail.
-- libwebsockets, libdmcom, the engine, OpenSSL and the Ambiorix libraries are not modelled: what
-- their calls return is an argument (the records `Server.Env` and `Client.Defs.Env`, and Boolean and
-- Option arguments in Transfers), and the calls that have an effect outside are a list of actions in
-- their order. What a theorem needs of them is a hypothesis of that theorem.
--
-- Not modelled: the event loop and the command line (cwmpd_evlp.c, cwmpd_main.c but for the tests of
-- an IP address), the storage of certificates, the loading and saving of the plugin, the reading of
-- the hardware address in cwmp_plugin_connection_request.c, and the adapter
-- (src/dmdeviceadapter/amx/adapter), which translates the engine's calls into calls of the data model.
-- A WWW-Authenticate header is taken to fit the 512 bytes of its buffer.
mod Base
pub mod AcsTransfers
pub mod Cookie
pub mod Client
pub mod Devices
pub mod Dns
pub mod Plugin
pub mod Requests
pub mod Server
pub mod SoftwareModules
pub mod Timers
pub mod Transfers
pub mod Xmpp
