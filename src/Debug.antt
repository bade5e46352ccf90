-- ===== src/Debug.antt =====
-- The debug controller of crates/arazzo-runtime/src/debug.
pub mod Breakpoints
pub mod Stack
pub mod Controller
pub mod Runs
pub mod Stepping
