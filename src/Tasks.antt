-- ===== src/Tasks.antt =====
-- internal/tasks/tasks.go: the registry of compiled deployment tasks.
pub mod Values
pub mod Plan
pub mod Registry
pub mod Run
