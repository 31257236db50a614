-- ===== src/Examples.antt =====
-- Concrete devices, and the theorems applied to them.
mod Device
mod Mailbox
mod Dcb
mod Windows
mod Address
mod Flow
mod Sync
mod Firmware
mod Guests
mod Filters
mod Link
mod Registers
