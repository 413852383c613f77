-- ===== src/Dns.antt =====
-- src/dmmain/cwmpd_dns.c: the lookup of the addresses of the ACS. Its static variables are the record
-- `Dns`. c-ares, libevent, the timers of libamxp and the engine are not modelled: what their calls
-- return is the record `Env`, and the calls that have an effect outside are the field `log`, in their
-- order. c-ares calls back once for each query: with its answer, in the call itself or later, or with
-- a failure when the channel is destroyed; `pending` says that this is still to come. Allocation is
-- taken to succeed.
pub mod Defs
pub mod Answer
pub mod Lookup
pub mod Events
pub mod Reading
pub mod Delay
pub mod Session
pub mod Splitting
pub mod Watch
mod Examples
pub mod Stale
pub mod Bootstrap
