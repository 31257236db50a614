-- ===== src/Vlan.antt =====
-- The VLAN filters, src/txgbe_hw.c: the filter table (VFTA) with its shadow copy, and the pool
-- filter (VLVF).
pub mod Filter
pub mod Table
pub mod Clear
