-- ===== src/Taskfile.antt =====
-- crates/taskcore/src/ast: the parts of a Taskfile that includes rename and merge.
pub mod Names
pub mod Vars
pub mod Task
pub mod Merge
pub mod File
mod Examples
pub mod Wildcard
