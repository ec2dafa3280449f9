-- ===== src/Jobs/Submit/Again.antt =====
-- A request that was accepted and is sent again after a cleanup (`CreateSubmissionContext`).
use provisioning_station.Base.{text_key}
use provisioning_station.Retention.Leads.{Leads}
