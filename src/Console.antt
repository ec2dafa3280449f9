-- ===== src/Console.antt =====
-- Serial consoles (internal/serialconsole).
pub mod Ports
pub mod Model
pub mod Attaching
pub mod Manager
pub mod Listing
pub mod Write
pub mod Stream
pub mod Lease
pub mod Rejected
pub mod Matching
