-- ===== src/Fdir.antt =====
-- Flow Director, src/txgbe_hw.c: the hashes, the filters and the input mask.
pub mod Hash
pub mod Filter
pub mod Mask
pub mod Keys
pub mod Shared
pub mod Split
pub mod Complete
