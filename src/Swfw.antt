-- ===== src/Swfw.antt =====
-- The semaphores that the driver shares with the firmware and with the other port, src/txgbe_hw.c.
pub mod Access
pub mod Sync
pub mod Device
pub mod Steps
pub mod Turn
pub mod Acquire
pub mod Outcome
