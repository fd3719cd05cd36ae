-- ===== src/Scanner.antt =====
-- The scanner handle of the C API (src/scanner.rs): its configuration, the calls that change it, the
-- panic poison, and how it is turned into a Lance scanner and a stream.
pub mod Config
pub mod Nprobes
pub mod Limits
pub mod Setters
pub mod Queries
pub mod Elements
pub mod Nearest
pub mod Calls
pub mod Handle
pub mod Iterate
pub mod Session
pub mod Plan
pub mod Async
pub mod Build
pub mod Inversion
pub mod Invariant
pub mod Frozen
mod Small
mod Examples
