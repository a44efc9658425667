-- ===== src/Scrobbler.antt =====
-- Scrobbler.hxx and Scrobbler.cxx: the state of one scrobbler, and its operations. A failed assertion
-- is `none`. The clock, MD5 and the URL escape of libcurl are parameters; logging is left out.
pub mod State
pub mod Response
pub mod Requests
pub mod Operations
pub mod Events
pub mod Invariant
pub mod Batch
pub mod Delivery
pub mod Session
pub mod Backoff
pub mod LogFile
pub mod Drain
mod Tests
