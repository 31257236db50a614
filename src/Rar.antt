-- ===== src/Rar.antt =====
-- The receive address table, src/txgbe_hw.c: `txgbe_set_rar` and the operations over it.
pub mod Regs
pub mod Table
pub mod Uc
pub mod Insert
pub mod Entry
pub mod Round
pub mod Fill
pub mod Add
pub mod Loop
pub mod Update
pub mod Promisc
pub mod Find
pub mod Place
