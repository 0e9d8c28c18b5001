-- ===== src/Glob.antt =====
-- crates/taskcore/src/fingerprint/glob.rs: matching paths against glob patterns.
pub mod Star
pub mod Bracket
pub mod Segment
pub mod Path
pub mod Pruner
pub mod Exclusion
pub mod Cache
mod Examples
