-- ===== src/Stream.antt =====
-- The panic guard of exported Arrow streams (src/stream_guard.rs).
pub mod Reader
pub mod Batches
mod Examples
