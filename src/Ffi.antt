-- ===== src/Ffi.antt =====
-- The error and panic firewall of the C boundary (src/error.rs).
pub mod Outcome
pub mod LastError
pub mod Guard
pub mod Report
mod Examples
