-- ===== src/Jobs.antt =====
-- internal/jobs: the job manager of the station daemon.
pub mod Model
pub mod State
pub mod Events
pub mod Persist
pub mod Run
pub mod Load
pub mod Submit
