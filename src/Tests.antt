-- ===== src/Tests.antt =====
-- Runs of the model at concrete inputs, and the theorems applied there.
mod Samples
mod Submissions
mod Lives
mod Plans
mod Histories
mod Transfers
mod Stores
mod Consoles
mod Captures
mod Cleanups
mod Runs
mod Restarts
