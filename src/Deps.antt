-- ===== src/Deps.antt =====
-- The dependencies between steps: crates/arazzo-runtime/src/runtime_core/deps.rs.
pub mod Blocker
pub mod Refs
pub mod Edges
pub mod Build
pub mod Transitive
pub mod Levels
pub mod IndexSet
