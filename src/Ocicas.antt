-- ===== src/Ocicas.antt =====
-- The content-addressed store of crates/ocicas: the names of what it restores, the links among
-- them, and the index of an artifact.
pub mod Names
pub mod Entries
pub mod Resolve
pub mod Index
pub mod Assemble
mod Examples
