-- ===== src/Filter.antt =====
-- The driver's own table of MAC filters, src/txgbe_main.c.
pub mod Table
pub mod Sync
pub mod Outcome
pub mod Take
pub mod Added
