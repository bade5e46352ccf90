-- ===== src/Routing.antt =====
-- crates/arazzo-runtime/src/runtime_core/engine_actions.rs: how the result of a step is routed
-- through its success or failure actions.
pub mod Decision
pub mod RetryAfter
pub mod Select
pub mod Execute
pub mod Handle
pub mod Reference
pub mod Selects
pub mod First
pub mod Walk
pub mod Settle
pub mod Within
