-- ===== src/Mbx.antt =====
-- The PF/VF mailbox, src/txgbe_mbx.c and src/txgbe_mbx.h.
pub mod Regs
pub mod Stats
pub mod Vf
pub mod Pf
pub mod Ops
pub mod Poll
pub mod Posted
pub mod Latch
pub mod Window
pub mod Frame
pub mod Delivery
