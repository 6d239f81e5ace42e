-- ===== src/Engine.antt =====
-- internal/runtime/engine.go
pub mod Identity
pub mod Policy
pub mod State
pub mod Partitions
pub mod Routes
pub mod Batch
pub mod Reset
pub mod Spec
pub mod Run
