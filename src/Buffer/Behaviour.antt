-- ===== src/Buffer/Behaviour.antt =====
-- src/buffer.rs: the operations of a pool as their callers see them.
pub mod Calls
pub mod Race
pub mod Returns
pub mod Leases
pub mod Prefill
