-- ===== src/Conditions.antt =====
-- Simple conditions: crates/arazzo-expr/src/simple_condition, a file for each of the source's.
pub mod Numeric
pub mod Equality
pub mod Nesting
pub mod Syntax
pub mod Compare
pub mod Evaluation
