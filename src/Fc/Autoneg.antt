-- ===== src/Fc/Autoneg.antt =====
-- Where the advertisements come from, src/txgbe_hw.c: `txgbe_rd32_epcs`,
-- `txgbe_device_supports_autoneg_fc`, `txgbe_fc_autoneg_fiber`, `txgbe_fc_autoneg_backplane`,
-- `txgbe_fc_autoneg_copper` and `txgbe_fc_autoneg`; src/txgbe_phy.c:
-- `txgbe_get_phy_advertised_pause` and `txgbe_get_lp_advertised_pause`.
use txgbe.Base.{
  ℕ, ◌/◌, ◌^◌, bit_and, ◌==◌, Bool, true, false, not, ◌&&◌, if◌then◌else◌, St, pure, ◌>>=◌, ◌>>◌,
  get,
}
use txgbe.Hw.{
  Hw, Bus, Status, is_success, err_fc_not_negotiated, media_fiber, media_copper, media_backplane,
}
use txgbe.Reg.{rd32, wr32}
use txgbe.Fc.Negotiate.{negotiate_fc, set_current_mode, set_was_autonegged}

abbrev pub xpcs_ida_addr : ℕ
xpcs_ida_addr = 0x13000

abbrev pub xpcs_ida_data : ℕ
xpcs_ida_data = 0x13004

abbrev pub sr_mii_mmd_an_adv : ℕ
sr_mii_mmd_an_adv = 0x1f0004

abbrev pub sr_mii_mmd_lp_babl : ℕ
sr_mii_mmd_lp_babl = 0x1f0005

abbrev pub sr_an_mmd_adv_reg1 : ℕ
sr_an_mmd_adv_reg1 = 0x70010

abbrev pub sr_an_mmd_lp_abl1 : ℕ
sr_an_mmd_lp_abl1 = 0x70013

abbrev pub link_speed_1gb_full : ℕ
link_speed_1gb_full = 2

abbrev pub id_mac_xaui : ℕ
id_mac_xaui = 0x40

abbrev pub id_mac_sgmii : ℕ
id_mac_sgmii = 0x60

-- What the MAC's function pointer `check_link` (speed and link state) and the PHY library
-- (`mtdHwXmdioRead` of the advertisement register, `mtdGetLPAdvertisedPause`) give.
pub record LinkOps (D : Type 0) : Type 0 where
  pub check_link : St (Hw D) (ℕ × Bool)
  pub read_advertisement : St (Hw D) ℕ
  pub lp_advertised_pause : St (Hw D) ℕ

module _ {D : Type 0} ⦃bus : Bus D⦄ where
  unfoldable pub rd32_epcs : ℕ → St (Hw D) ℕ
  rd32_epcs addr = do wr32 xpcs_ida_addr addr; rd32 xpcs_ida_data

  unfoldable pub fc_autoneg_fiber : St (Hw D) Status
  fc_autoneg_fiber = do
    pcs_anadv_reg ← rd32_epcs sr_mii_mmd_an_adv
    pcs_lpab_reg ← rd32_epcs sr_mii_mmd_lp_babl
    negotiate_fc pcs_anadv_reg pcs_lpab_reg 0x100 0x80 0x100 0x80

  unfoldable pub fc_autoneg_backplane : St (Hw D) Status
  fc_autoneg_backplane = do
    autoc_reg ← rd32_epcs sr_an_mmd_adv_reg1
    anlp1_reg ← rd32_epcs sr_an_mmd_lp_abl1
    negotiate_fc autoc_reg anlp1_reg 0x400 0x800 0x400 0x800

module _ {D : Type 0} ⦃bus : Bus D⦄ (link : LinkOps D) where
  unfoldable pub get_phy_advertised_pause : St (Hw D) ℕ
  get_phy_advertised_pause = do value ← link.read_advertisement; pure (bit_and (value / 2 ^ 10) 0x3)

  unfoldable pub fc_autoneg_copper : St (Hw D) Status
  fc_autoneg_copper = do
    technology_ability_reg ← get_phy_advertised_pause
    lp_technology_ability_reg ← link.lp_advertised_pause
    negotiate_fc technology_ability_reg lp_technology_ability_reg 0x1 0x2 0x1 0x2

  unfoldable pub device_supports_autoneg_fc : St (Hw D) Bool
  device_supports_autoneg_fc hw = elim (hw.media_type) [
    | media_fiber ↦
        let ((speed, link_up), hw1) = link.check_link hw in
        (if link_up then speed == link_speed_1gb_full else true, hw1)
    | media_backplane ↦
        let device_type = bit_and hw.subsystem_device_id 0xf0 in
        (not (device_type == id_mac_xaui) && not (device_type == id_mac_sgmii), hw)
    | media_copper ↦ (true, hw)
    | _ ↦ (false, hw)
  ]

  -- The switch over the media.
  unfoldable pub autoneg_media : ℕ → St (Hw D) Status
  autoneg_media speed hw = elim (hw.media_type) [
    | media_fiber ↦
        if speed == link_speed_1gb_full then fc_autoneg_fiber hw else (err_fc_not_negotiated, hw)
    | media_backplane ↦ fc_autoneg_backplane hw
    | media_copper ↦
        let (supported, hw1) = device_supports_autoneg_fc hw in
        if supported then fc_autoneg_copper hw1 else (err_fc_not_negotiated, hw1)
    | _ ↦ (err_fc_not_negotiated, hw)
  ]

  -- What stands after the label `out`.
  unfoldable pub conclude_autoneg : Status → St (Hw D) (Unit {0})
  conclude_autoneg ret_val = do
    hw ← get
    if is_success ret_val
        then set_was_autonegged true
        else (set_was_autonegged false >> set_current_mode hw.fc.requested_mode)

  unfoldable pub fc_autoneg : St (Hw D) (Unit {0})
  fc_autoneg = do
    hw ← get
    if hw.fc.disable_fc_autoneg then conclude_autoneg err_fc_not_negotiated else (do
      found ← link.check_link
      if found.1
          then (autoneg_media found.0 >>= conclude_autoneg)
          else conclude_autoneg err_fc_not_negotiated)
