-- ===== src/Local.antt =====
-- src/local.rs: the per-thread pool.
pub mod State
pub mod Registry
pub mod Pool
pub mod Casts
pub mod Typed
pub mod Safety
pub mod RoundTrip
pub mod With
pub mod Threads
mod Examples
pub mod Reclaim
