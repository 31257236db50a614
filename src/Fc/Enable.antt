-- ===== src/Fc/Enable.antt =====
-- Programming flow control, src/txgbe_hw.c: `txgbe_fc_enable`.
use txgbe.Base.{
  ℕ, zero, suc, ◌+◌, ◌-◌, ◌*◌, ◌/◌, ◌%◌, ◌^◌, bit_and, bit_or, leb, nonzero, Bool, true, false, not,
  ◌&&◌, ◌||◌, if◌then◌else◌, get_or, St, pure, ◌>>=◌, ◌>>◌, get, for_range,
}
use txgbe.Hw.{
  Hw, Bus, Status, success, err_config, err_invalid_link_settings, FcMode, fc_rx_pause, fc_tx_pause,
  fc_full, fc_default, FcInfo,
}
use txgbe.Reg.{rd32, wr32, not32, shl32}
use txgbe.Dcb.Config.{max_traffic_class}
use txgbe.Dcb.PfcHw.{
  rdb_rfcv, rdb_rfcl, rdb_rfch, rdb_rfcrt, rdb_rfcc, rdb_pb_sz, mac_rx_flow_ctrl, rfch_xoffe,
  rfcc_rfce_priority, mac_rx_flow_ctrl_pfce,
}
use txgbe.Fc.Negotiate.{mode_value}
use txgbe.Fc.Autoneg.{LinkOps, fc_autoneg}

abbrev pub mac_rx_flow_ctrl_rfe : ℕ
mac_rx_flow_ctrl_rfe = 0x1

abbrev pub rfcc_rfce_802_3x : ℕ
rfcc_rfce_802_3x = 0x8

-- `(hw->fc.current_mode & txgbe_fc_tx_pause) && hw->fc.high_water[i]`
abbrev pub sends_xoff : FcInfo → ℕ → Bool
sends_xoff fc i =
    nonzero (bit_and (mode_value fc.current_mode) 2) && nonzero (get_or fc.high_water i 0)

-- The loop over the classes from `i` that looks for an invalid pair of marks, with `n` classes left.
unfoldable pub invalid_marks : FcInfo → ℕ → ℕ → Bool
invalid_marks fc zero i = false
invalid_marks fc (suc n) i =
    (sends_xoff fc i
      && (not (nonzero (get_or fc.low_water i 0))
          || leb (get_or fc.high_water i 0) (get_or fc.low_water i 0)))
    || invalid_marks fc n (i + 1)

-- The two arms of the switch: what is added to the two control registers. `none` of the C switch is
-- the default.
abbrev pub rx_enable : FcMode → ℕ
rx_enable fc_rx_pause = mac_rx_flow_ctrl_rfe
rx_enable fc_full = mac_rx_flow_ctrl_rfe
rx_enable _ = 0

abbrev pub tx_enable : FcMode → ℕ
tx_enable fc_tx_pause = rfcc_rfce_802_3x
tx_enable fc_full = rfcc_rfce_802_3x
tx_enable _ = 0

abbrev pub is_default : FcMode → Bool
is_default fc_default = true
is_default _ = false

module _ {D : Type 0} ⦃bus : Bus D⦄ where
  -- The thresholds of class `i`.
  unfoldable pub fc_thresholds : ℕ → St (Hw D) (Unit {0})
  fc_thresholds i = do
    hw ← get
    if sends_xoff hw.fc i
        then (do
          wr32 (rdb_rfcl i) (shl32 (get_or hw.fc.low_water i 0) 10)
          wr32 (rdb_rfch i) (bit_or (shl32 (get_or hw.fc.high_water i 0) 10) rfch_xoffe))
        else (do
          wr32 (rdb_rfcl i) 0
          reg ← rd32 (rdb_pb_sz i)
          wr32 (rdb_rfch i) ((reg + (2 ^ 32 - 24576)) % 2 ^ 32))

  -- What follows the negotiation.
  unfoldable pub program_fc : St (Hw D) Status
  program_fc = do
    mflcn ← rd32 mac_rx_flow_ctrl
    fccfg ← rd32 rdb_rfcc
    hw ← get
    let mode = hw.fc.current_mode
    let mflcn_reg = bit_and mflcn (not32 (bit_or mac_rx_flow_ctrl_pfce mac_rx_flow_ctrl_rfe))
    let fccfg_reg = bit_and fccfg (not32 (bit_or rfcc_rfce_802_3x rfcc_rfce_priority))
    if is_default mode then pure err_config else (do
      wr32 mac_rx_flow_ctrl (bit_or mflcn_reg (rx_enable mode))
      wr32 rdb_rfcc (bit_or fccfg_reg (tx_enable mode))
      for_range max_traffic_class 0 fc_thresholds
      hw' ← get
      let reg = hw'.fc.pause_time * 0x10001 % 2 ^ 32
      for_range (max_traffic_class / 2) 0 (λ i. wr32 (rdb_rfcv i) reg)
      wr32 rdb_rfcrt (hw'.fc.pause_time / 2)
      pure success)

  unfoldable pub fc_enable : LinkOps D → St (Hw D) Status
  fc_enable link = do
    hw ← get
    if not (nonzero hw.fc.pause_time)
        then pure err_invalid_link_settings
        else if invalid_marks hw.fc max_traffic_class 0
        then pure err_invalid_link_settings
        else (fc_autoneg link >> program_fc)
