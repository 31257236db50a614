-- ===== src/Mta.antt =====
-- The multicast table, src/txgbe_hw.c: `txgbe_mta_vector`, `txgbe_set_mta`,
-- `txgbe_update_mc_addr_list`.
pub mod Table
pub mod Hash
