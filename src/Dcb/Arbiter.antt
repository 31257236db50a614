-- ===== src/Dcb/Arbiter.antt =====
-- The three arbiters, src/txgbe_dcb.c: `txgbe_dcb_config_rx_arbiter`,
-- `txgbe_dcb_config_tx_desc_arbiter`, `txgbe_dcb_config_tx_data_arbiter` and `txgbe_dcb_hw_config`.
use txgbe.Base.{
  ℕ, ◌+◌, ◌*◌, bit_or, Bool, true, false, if◌then◌else◌, List, [], ◌∷◌, get_or, St, pure, ◌>>=◌,
  ◌>>◌, for_range,
}
use txgbe.Hw.{Hw, Bus, Status, success}
use txgbe.Reg.{wr32, shl32}
use txgbe.Dcb.Config.{Tsa, tsa_ets, tsa_group_strict_cee, tsa_strict, max_traffic_class}

abbrev pub rdm_arb_ctl : ℕ
rdm_arb_ctl = 0x12000

abbrev pub rdm_arb_cfg : ℕ → ℕ
rdm_arb_cfg i = 0x12040 + i * 4

abbrev pub rdb_up2tc : ℕ
rdb_up2tc = 0x19008

abbrev pub tdm_pbwarb_ctl : ℕ
tdm_pbwarb_ctl = 0x18200

abbrev pub tdm_pbwarb_cfg : ℕ → ℕ
tdm_pbwarb_cfg i = 0x18220 + i * 4

abbrev pub tdm_vm_credit : ℕ → ℕ
tdm_vm_credit i = 0x18500 + i * 4

abbrev pub tdb_pbrarb_ctl : ℕ
tdb_pbrarb_ctl = 0x1cd00

abbrev pub tdb_pbrarb_cfg : ℕ → ℕ
tdb_pbrarb_cfg i = 0x1cd20 + i * 4

abbrev pub tdb_up2tc : ℕ
tdb_up2tc = 0x1c800

abbrev pub cfg_gsp : ℕ
cfg_gsp = 0x40000000

abbrev pub cfg_lsp : ℕ
cfg_lsp = 0x80000000

abbrev pub is_strict : Tsa → Bool
is_strict tsa_strict = true
is_strict _ = false

abbrev pub is_group_strict : Tsa → Bool
is_group_strict tsa_group_strict_cee = true
is_group_strict _ = false

-- `for (i = 0; ...) reg |= (map[i] << (i * 4));`, from priority `i`.
unfoldable pub up2tc_value : List ℕ → ℕ → ℕ → ℕ
up2tc_value [] i reg = reg
up2tc_value (tc ∷ prio_map) i reg = up2tc_value prio_map (i + 1) (bit_or reg (shl32 tc (i * 4)))

-- The value of one class's register, in the order of each function.
unfoldable pub rx_arb_value : ℕ → ℕ → ℕ → Tsa → ℕ
rx_arb_value refill max bwg_id tsa =
    let reg = bit_or (bit_or refill (shl32 max 12)) (shl32 bwg_id 9) in
    if is_strict tsa then bit_or reg cfg_lsp else reg

unfoldable pub tx_desc_value : ℕ → ℕ → ℕ → Tsa → ℕ
tx_desc_value refill max bwg_id tsa =
    let reg = bit_or (bit_or (shl32 max 12) refill) (shl32 bwg_id 9) in
    let reg' = if is_group_strict tsa then bit_or reg cfg_gsp else reg in
    if is_strict tsa then bit_or reg' cfg_lsp else reg'

unfoldable pub tx_data_value : ℕ → ℕ → ℕ → Tsa → ℕ
tx_data_value refill max bwg_id tsa =
    let reg = bit_or (bit_or refill (shl32 max 12)) (shl32 bwg_id 9) in
    let reg' = if is_group_strict tsa then bit_or reg cfg_gsp else reg in
    if is_strict tsa then bit_or reg' cfg_lsp else reg'

module _ {D : Type 0} ⦃bus : Bus D⦄ (refill max bwg_id : List ℕ) (tsa : List Tsa) where
  -- The last loop of each function, which programs the classes.
  abbrev program_classes : (ℕ → ℕ) → (ℕ → ℕ → ℕ → Tsa → ℕ) → St (Hw D) (Unit {0})
  program_classes cfg value = for_range max_traffic_class 0 λ i.
      wr32 (cfg i)
        (value (get_or refill i 0) (get_or max i 0) (get_or bwg_id i 0) (get_or tsa i tsa_ets))

  unfoldable pub config_rx_arbiter : List ℕ → St (Hw D) Status
  config_rx_arbiter prio_map = do
    wr32 rdm_arb_ctl (bit_or 0x2 (bit_or 0x4 0x40))
    wr32 rdb_up2tc (up2tc_value prio_map 0 0)
    program_classes rdm_arb_cfg rx_arb_value
    wr32 rdm_arb_ctl (bit_or 0x2 0x4)
    pure success

  unfoldable pub config_tx_desc_arbiter : St (Hw D) Status
  config_tx_desc_arbiter = do
    for_range 128 0 (λ i. wr32 (tdm_vm_credit i) 0)
    program_classes tdm_pbwarb_cfg tx_desc_value
    wr32 tdm_pbwarb_ctl (bit_or 0x1 0x10)
    pure success

  unfoldable pub config_tx_data_arbiter : List ℕ → St (Hw D) Status
  config_tx_data_arbiter prio_map = do
    wr32 tdb_pbrarb_ctl (bit_or 0x20 (bit_or 0x100 0x40))
    wr32 tdb_up2tc (up2tc_value prio_map 0 0)
    program_classes tdb_pbrarb_cfg tx_data_value
    wr32 tdb_pbrarb_ctl (bit_or 0x20 0x100)
    pure success

  unfoldable pub hw_config : List ℕ → St (Hw D) Status
  hw_config prio_map = do
    _ ← config_rx_arbiter prio_map
    _ ← config_tx_desc_arbiter
    _ ← config_tx_data_arbiter prio_map
    pure success
