-- ===== src/Hash.antt =====
-- crates/taskcore/src/hash.rs: the canonical encoding that a task's identity is a digest of.
pub mod Bytes
pub mod Code
pub mod Value
pub mod Fields
pub mod Determined
pub mod Task
pub mod Slots
pub mod Identity
mod Examples
