-- ===== src/Tftp.antt =====
-- The read-only TFTP server (internal/tftp/server.go).
pub mod Packets
pub mod Request
pub mod Options
pub mod Exchange
pub mod Transfer
pub mod Server
