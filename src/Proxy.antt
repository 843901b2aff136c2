-- ===== src/Proxy.antt =====
-- src/proxy.rs: who is let in, and how a request is tried at one upstream after another.
pub mod Auth
pub mod Retry
pub mod Server
pub mod Rounds
pub mod Attempts
pub mod Counts
pub mod Failures
pub mod Reasons
pub mod Json
pub mod Incoming
pub mod Sse
pub mod Relay
