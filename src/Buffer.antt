-- ===== src/Buffer.antt =====
-- src/buffer.rs: the shared, sharded pool.
pub mod State
pub mod Inner
pub mod Pool
pub mod Guard
pub mod Invariant
pub mod Weights
pub mod Client
pub mod Behaviour
pub mod Concurrent
pub mod Crew
pub mod Bags
pub mod Contract
pub mod Examples
