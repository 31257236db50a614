-- ===== src/Fc.antt =====
-- Link flow control, src/txgbe_hw.c: negotiation, its three sources, and the programming of the MAC.
pub mod Negotiate
pub mod Autoneg
pub mod Enable
pub mod Compat
pub mod Round
pub mod Finish
pub mod Gate
