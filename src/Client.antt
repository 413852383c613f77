-- ===== src/Client.antt =====
-- src/dmmain/cwmpd_client.c: the HTTP client of the session with the ACS. Its static variables are
-- the record `Client`. libwebsockets, libdmcom and the engine are not modelled: what their calls
-- return in one run of a function is the record `Env`, and the calls that have an effect outside
-- are a list of `Action`s, in order. Allocation is taken to succeed.
pub mod Defs
pub mod Certificates
pub mod Auth
pub mod Callbacks
pub mod Address
pub mod Session
pub mod Buffer
pub mod Closing
pub mod Retry
pub mod Qos
pub mod Start
pub mod Handshake
pub mod Reset
pub mod Tls
pub mod Source
pub mod Examples
