-- ===== src/Dcb.antt =====
-- Data centre bridging, src/txgbe_dcb.c and src/txgbe_dcb.h.
pub mod Config
pub mod Credits
pub mod Cee
pub mod Unpack
pub mod Ratio
pub mod CeeFit
pub mod UpMap
pub mod PfcHw
pub mod PfcRound
pub mod Pfc
pub mod Arbiter
pub mod Fields
pub mod Arbiters
pub mod Port
