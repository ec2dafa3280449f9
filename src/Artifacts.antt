-- ===== src/Artifacts.antt =====
-- Boot artifacts (internal/artifact).
pub mod Manifest
pub mod Archive
