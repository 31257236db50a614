-- ===== src/Hic.antt =====
-- The host interface to the firmware and the EEPROM behind it, src/txgbe_hw.c.
pub mod Command
pub mod Eeprom
pub mod Image
pub mod Fuel
pub mod Checksum
pub mod Kept
pub mod Release
