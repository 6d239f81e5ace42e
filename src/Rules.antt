-- ===== src/Rules.antt =====
-- internal/rules/evaluator.go
pub mod Kinds
pub mod Validate
pub mod Timeframe
pub mod Results
pub mod Facts
pub mod Temporal
pub mod Evaluate
pub mod Advance
