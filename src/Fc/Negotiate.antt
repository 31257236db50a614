-- ===== src/Fc/Negotiate.antt =====
-- The resolution of pause advertisements, src/txgbe_hw.c: `txgbe_negotiate_fc`.
use txgbe.Base.{
  ℕ, bit_and, nonzero, Bool, true, false, not, ◌&&◌, ◌||◌, if◌then◌else◌, St, pure, ◌>>=◌, ◌>>◌,
  get,
}
use txgbe.Hw.{
  Hw, Status, success, err_fc_not_negotiated, FcMode, fc_none, fc_rx_pause, fc_tx_pause, fc_full,
  fc_default,
}

abbrev pub is_full : FcMode → Bool
is_full fc_full = true
is_full _ = false

-- The values of the enum, which the code tests by bits.
abbrev pub mode_value : FcMode → ℕ
mode_value fc_none = 0
mode_value fc_rx_pause = 1
mode_value fc_tx_pause = 2
mode_value fc_full = 3
mode_value fc_default = 4

-- The ladder that chooses `hw->fc.current_mode`.
unfoldable pub negotiated_mode : FcMode → ℕ → ℕ → ℕ → ℕ → ℕ → ℕ → FcMode
negotiated_mode requested adv_reg lp_reg adv_sym adv_asm lp_sym lp_asm =
    if nonzero (bit_and adv_reg adv_sym) && nonzero (bit_and lp_reg lp_sym)
    then (if is_full requested then fc_full else fc_rx_pause)
    else if not (nonzero (bit_and adv_reg adv_sym))
        && nonzero (bit_and adv_reg adv_asm)
        && nonzero (bit_and lp_reg lp_sym)
        && nonzero (bit_and lp_reg lp_asm)
    then fc_tx_pause
    else if nonzero (bit_and adv_reg adv_sym)
        && nonzero (bit_and adv_reg adv_asm)
        && not (nonzero (bit_and lp_reg lp_sym))
        && nonzero (bit_and lp_reg lp_asm)
    then fc_rx_pause
    else fc_none

module _ {D : Type 0} where
  abbrev pub set_current_mode : FcMode → St (Hw D) (Unit {0})
  set_current_mode mode hw = (tt, record hw { fc = record (hw.fc) { current_mode = mode } })

  abbrev pub set_was_autonegged : Bool → St (Hw D) (Unit {0})
  set_was_autonegged b hw = (tt, record hw { fc = record (hw.fc) { fc_was_autonegged = b } })

  unfoldable pub negotiate_fc : ℕ → ℕ → ℕ → ℕ → ℕ → ℕ → St (Hw D) Status
  negotiate_fc adv_reg lp_reg adv_sym adv_asm lp_sym lp_asm = do
    hw ← get
    let mode = negotiated_mode hw.fc.requested_mode adv_reg lp_reg adv_sym adv_asm lp_sym lp_asm
    if not (nonzero adv_reg) || not (nonzero lp_reg)
        then pure err_fc_not_negotiated
        else (set_current_mode mode >> pure success)
