-- ===== src/Pipeline.antt =====
-- crates/thorax-core/src/validate/pipeline.rs: the validation of a vault.
pub mod Report
pub mod Root
pub mod Signers
pub mod Records
pub mod Deletions
pub mod Watermarks
pub mod Validate
mod Examples
