-- ===== src/Retention.antt =====
-- What of completed jobs and of artifacts is kept (internal/jobs/retention.go).
pub mod Model
pub mod Cleaning
pub mod Buried
pub mod Rule
pub mod Members
pub mod Order
pub mod Gate
pub mod Guarded
pub mod Leads
pub mod Pruned
