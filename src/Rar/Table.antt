-- ===== src/Rar/Table.antt =====
-- The operations on the receive address table, src/txgbe_hw.c. The pointers `mac.ops.set_vmdq` and
-- `mac.ops.clear_vmdq` are null, since no code assigns them, so that their calls do nothing.
use txgbe.Base.{
  ℕ, ◌+◌, ◌-◌, ◌*◌, ◌/◌, ◌^◌, bit_and, bit_or, nonzero, ltb, leb, ◌==◌, ◌&&◌, not, if◌then◌else◌,
  List, St, pure, ◌>>=◌, ◌>>◌, get, modify, for_range,
}
use txgbe.Hw.{Hw, Bus, Status, success, is_success, err_invalid_argument}
use txgbe.Reg.{rd32, wr32, wr32m, not32, shl32}
use txgbe.Mta.Table.{psr_mc_tbl, psr_ctl, psr_ctl_mo, psr_ctl_mfe, psr_ctl_mo_shift}
use txgbe.Rar.Regs.{
  psr_mac_swc_ad_l, psr_mac_swc_ad_h, psr_mac_swc_vm_l, psr_mac_swc_vm_h, psr_mac_swc_idx,
  psr_mac_swc_ad_h_av, ad_h_mask, rar_low, rar_high, bytes_of, validate_mac_addr,
}

abbrev pub psr_uc_tbl : ℕ
psr_uc_tbl = 0x15400

module _ {D : Type 0} ⦃bus : Bus D⦄ where
  -- The body of `txgbe_set_rar` and of `txgbe_clear_rar` past the test of the index.
  unfoldable pub write_rar : ℕ → ℕ → ℕ → ℕ → St (Hw D) Status
  write_rar index pools low high = do
    wr32 psr_mac_swc_idx index
    wr32 psr_mac_swc_vm_l (bit_and pools 0xffffffff)
    wr32 psr_mac_swc_vm_h (pools / 2 ^ 32)
    wr32 psr_mac_swc_ad_l low
    wr32m psr_mac_swc_ad_h ad_h_mask high
    pure success

  unfoldable pub set_rar : ℕ → List ℕ → ℕ → ℕ → St (Hw D) Status
  set_rar index addr pools enable_addr = do
    hw ← get
    if leb hw.mac.num_rar_entries index
        then pure err_invalid_argument
        else write_rar index pools (rar_low addr) (
            if nonzero enable_addr
            then bit_or (rar_high addr) psr_mac_swc_ad_h_av
            else rar_high addr)

  unfoldable pub clear_rar : ℕ → St (Hw D) Status
  clear_rar index = do
    hw ← get
    if leb hw.mac.num_rar_entries index then pure err_invalid_argument else write_rar index 0 0 0

  unfoldable pub get_mac_addr : St (Hw D) (List ℕ)
  get_mac_addr = do
    wr32 psr_mac_swc_idx 0
    high ← rd32 psr_mac_swc_ad_h
    low ← rd32 psr_mac_swc_ad_l
    pure (bytes_of high low)

  -- The second test of the two words can not succeed after the first.
  unfoldable pub clear_vmdq : ℕ → St (Hw D) Status
  clear_vmdq rar = do
    hw ← get
    if leb hw.mac.num_rar_entries rar then pure err_invalid_argument else do
      wr32 psr_mac_swc_idx rar
      mpsar_lo ← rd32 psr_mac_swc_vm_l
      mpsar_hi ← rd32 psr_mac_swc_vm_h
      hw1 ← get
      if not hw1.mapped
          then pure success
          else if (mpsar_lo == 0) && (mpsar_hi == 0)
          then pure success
          else if (mpsar_lo == 0) && (mpsar_hi == 0) && nonzero rar
          then clear_rar rar >>= (λ (_ : Status). pure success)
          else pure success

  unfoldable pub set_vmdq : ℕ → St (Hw D) Status
  set_vmdq rar = do
    hw ← get
    if leb hw.mac.num_rar_entries rar then pure err_invalid_argument else pure success

  unfoldable pub set_vmdq_san_mac : ℕ → St (Hw D) Status
  set_vmdq_san_mac vmdq = do
    hw ← get
    wr32 psr_mac_swc_idx hw.mac.san_mac_rar_index
    wr32 psr_mac_swc_vm_l (if ltb vmdq 32 then 2 ^ vmdq else 0)
    wr32 psr_mac_swc_vm_h (if ltb vmdq 32 then 0 else shl32 1 (vmdq - 32))
    pure success

  unfoldable pub init_uta_tables : St (Hw D) Status
  init_uta_tables = do for_range 128 0 (λ i. wr32 (psr_uc_tbl + i * 4) 0); pure success

  -- The body of the loops that zero the other receive addresses.
  unfoldable pub zero_rar : ℕ → St (Hw D) (Unit {0})
  zero_rar i = do wr32 psr_mac_swc_idx i; wr32 psr_mac_swc_ad_l 0; wr32 psr_mac_swc_ad_h 0

  -- The first step of `txgbe_init_rx_addrs`: keep the address of entry 0, or override it.
  unfoldable pub init_rar0 : St (Hw D) (Unit {0})
  init_rar0 = do
    hw ← get
    if is_success (validate_mac_addr hw.mac.addr)
        then set_rar 0 hw.mac.addr 0 psr_mac_swc_ad_h_av >>= (λ (_ : Status). pure tt)
        else (do
          addr ← get_mac_addr
          modify λ (hw1 : Hw D). record hw1 { mac = record (hw1.mac) { addr = addr } })

  -- The last step: the multicast table is turned off and cleared.
  unfoldable pub clear_mta : St (Hw D) (Unit {0})
  clear_mta = do
    modify λ (hw : Hw D). record hw { addr_ctrl = record (hw.addr_ctrl) { mta_in_use = 0 } }
    psrctl ← rd32 psr_ctl
    hw ← get
    wr32 psr_ctl (
        bit_or (bit_and psrctl (not32 (bit_or psr_ctl_mo psr_ctl_mfe)))
          (shl32 hw.mac.mc_filter_type psr_ctl_mo_shift))
    for_range hw.mac.mcft_size 0 (λ i. wr32 (psr_mc_tbl + i * 4) 0)

  unfoldable pub init_rx_addrs : St (Hw D) Status
  init_rx_addrs = do
    init_rar0
    modify λ (hw : Hw D). record hw {
      addr_ctrl = record (hw.addr_ctrl) { overflow_promisc = 0; rar_used_count = 1 };
    }
    hw ← get
    for_range (hw.mac.num_rar_entries - 1) 1 zero_rar
    clear_mta
    _ ← init_uta_tables
    pure success
