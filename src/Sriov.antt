-- ===== src/Sriov.antt =====
-- The physical function's side of SR-IOV, src/txgbe_sriov.c: `txgbe_set_vf_multicasts`.
pub mod Multicast
pub mod Hashed
pub mod Requested
