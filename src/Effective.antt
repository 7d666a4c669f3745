-- ===== src/Effective.antt =====
-- The effective state of a set of verified records (crates/thorax-core/src/validate/effective.rs).
pub mod Report
pub mod Select
pub mod State
pub mod Settled
pub mod Granted
mod Examples
