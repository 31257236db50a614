-- ===== src/Pcierr.antt =====
-- PCI Express error recovery, src/txgbe_pcierr.c.
pub mod Recovery
pub mod Votes
pub mod Ready
