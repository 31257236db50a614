-- ===== src/Fc/Gate.antt =====
-- What src/txgbe_hw.c `txgbe_fc_enable` leaves in the registers when it gets past its checks.
use txgbe.Base.{ℕ, bit, bit_and, bit_or, ◌≡◌, if◌then◌else◌}
use txgbe.Hw.{Hw, Bus, FcInfo, Status, success}
use txgbe.Reg.{rd32, wr32, not32}
use txgbe.Reg.Ram.{Ram}
use txgbe.Dcb.PfcHw.{rdb_rfcl, rdb_rfch, rdb_rfcc, mac_rx_flow_ctrl}
use txgbe.Fc.Enable.{rx_enable, tx_enable}
use txgbe.Fc.Compat.{sends_pause, obeys_pause}
use txgbe.Fc.Round.{rfcl_of, rfch_of}

module _ {D : Type 0} ⦃bus : Bus D⦄ where
  -- The state in which the rounds begin: both control registers are written.
  abbrev programmed : Hw D → Hw D
  programmed hw =
      let (mflcn, hw1) = rd32 mac_rx_flow_ctrl hw in
      let (fccfg, hw2) = rd32 rdb_rfcc hw1 in
      let mode = hw2.fc.current_mode in
      (wr32 rdb_rfcc (bit_or (bit_and fccfg (not32 0x18)) (tx_enable mode))
        (wr32 mac_rx_flow_ctrl (bit_or (bit_and mflcn (not32 0x101)) (rx_enable mode)) hw2).1).1

module _ {D : Type 0} ⦃bus : Bus D⦄ {cell : ℕ → D → ℕ} (ram : Ram bus cell) where
  -- What a result of the programming says of class `i`, for the settings `fc` and a packet buffer
  -- of size `p`.
  abbrev pub IsProgrammed : ℕ → FcInfo → ℕ → Status × Hw D → Type 0
  IsProgrammed i fc p r =
      (r.0 ≡ success)
      × (cell (rdb_rfch i) r.1.dev ≡ rfch_of fc i p)
      × (cell (rdb_rfcl i) r.1.dev ≡ rfcl_of fc i)
      × (bit 0 (cell mac_rx_flow_ctrl r.1.dev) ≡ (if obeys_pause fc.current_mode then 1 else 0))
      × (bit 8 (cell mac_rx_flow_ctrl r.1.dev) ≡ 0)
      × (bit 3 (cell rdb_rfcc r.1.dev) ≡ (if sends_pause fc.current_mode then 1 else 0))
      × (bit 4 (cell rdb_rfcc r.1.dev) ≡ 0)
