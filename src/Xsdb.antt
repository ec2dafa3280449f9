-- ===== src/Xsdb.antt =====
-- Running XSDB (internal/xsdb).
pub mod Lines
pub mod Arguments
pub mod Targets
pub mod Found
