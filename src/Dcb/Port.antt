-- ===== src/Dcb/Port.antt =====
-- Port-wide settings and the whole configuration, src/txgbe_dcb.c: `txgbe_dcb_config` and
-- `txgbe_dcb_hw_config_cee`. `txgbe_dcb_config_tc_stats` does nothing.
use txgbe.Base.{
  ℕ, ◌+◌, ◌*◌, ◌^◌, bit_and, bit_or, nonzero, ◌==◌, ◌&&◌, Bool, if◌then◌else◌, St, pure, ◌>>=◌,
  ◌>>◌, get, for_range,
}
use txgbe.Hw.{Hw, Bus, Status, success, is_success}
use txgbe.Reg.{wr32, wr32m, not32}
use txgbe.Dcb.Config.{DcbConfig, tx_config}
use txgbe.Dcb.Unpack.{
  unpack_refill_cee, unpack_max_cee, unpack_bwgid_cee, unpack_tsa_cee, unpack_map_cee,
  unpack_pfc_cee,
}
use txgbe.Dcb.PfcHw.{config_pfc}
use txgbe.Dcb.Arbiter.{hw_config}

abbrev pub cfg_port_ctl : ℕ
cfg_port_ctl = 0x14400

abbrev pub port_ctl_d_vlan : ℕ
port_ctl_d_vlan = 0x1

abbrev pub port_ctl_qinq : ℕ
port_ctl_qinq = 0x4

abbrev pub port_ctl_dcb_en : ℕ
port_ctl_dcb_en = 0x400

abbrev pub port_ctl_num_tc_mask : ℕ
port_ctl_num_tc_mask = 0x800

abbrev pub port_ctl_num_tc_4 : ℕ
port_ctl_num_tc_4 = 0x0

abbrev pub port_ctl_num_tc_8 : ℕ
port_ctl_num_tc_8 = 0x800

abbrev pub port_ctl_num_vt_mask : ℕ
port_ctl_num_vt_mask = 0x3000

abbrev pub port_ctl_num_vt_16 : ℕ
port_ctl_num_vt_16 = 0x1000

abbrev pub port_ctl_num_vt_32 : ℕ
port_ctl_num_vt_32 = 0x2000

abbrev pub port_ctl_num_vt_64 : ℕ
port_ctl_num_vt_64 = 0x3000

abbrev pub rdm_pf_qde : ℕ → ℕ
rdm_pf_qde i = 0x12080 + i * 4

-- TXGBE_FLAG_VMDQ_ENABLED
abbrev pub flag_vmdq_enabled : ℕ
flag_vmdq_enabled = 2 ^ 11

unfoldable pub vmdq_flags : Bool → ℕ → ℕ
vmdq_flags vt_mode flags =
    if vt_mode then bit_or flags flag_vmdq_enabled else bit_and flags (not32 flag_vmdq_enabled)

-- The ladder that chooses `value`.
unfoldable pub port_value : ℕ → ℕ → ℕ → ℕ
port_value flags pg_tcs rss_indices =
    if nonzero (bit_and flags flag_vmdq_enabled)
    then (if pg_tcs == 8
        then bit_or port_ctl_num_tc_8 (bit_or port_ctl_num_vt_16 port_ctl_dcb_en)
        else if pg_tcs == 4
        then bit_or port_ctl_num_tc_4 (bit_or port_ctl_num_vt_32 port_ctl_dcb_en)
        else if rss_indices == 4
        then port_ctl_num_vt_32
        else port_ctl_num_vt_64)
    else if pg_tcs == 8
    then bit_or port_ctl_num_tc_8 port_ctl_dcb_en
    else if pg_tcs == 4
    then bit_or port_ctl_num_tc_4 port_ctl_dcb_en
    else 0

abbrev pub port_mask : ℕ
port_mask =
    bit_or port_ctl_num_tc_mask
      (bit_or port_ctl_num_vt_mask (bit_or port_ctl_dcb_en (bit_or port_ctl_d_vlan port_ctl_qinq)))

module _ {D : Type 0} where
  abbrev set_flags : ℕ → St (Hw D) (Unit {0})
  set_flags flags hw = (tt, record hw { back = record (hw.back) { flags = flags } })

module _ {D : Type 0} ⦃bus : Bus D⦄ where
  unfoldable pub dcb_config : DcbConfig → St (Hw D) Status
  dcb_config cfg = do
    hw ← get
    let flags = vmdq_flags cfg.vt_mode hw.back.flags
    set_flags flags
    let value = port_value flags cfg.pg_tcs hw.back.rss_indices
    wr32m cfg_port_ctl port_mask (bit_or value (bit_or port_ctl_d_vlan port_ctl_qinq))
    for_range 4 0 (λ n. wr32 (rdm_pf_qde n) 0)
    pure success

  unfoldable pub hw_config_cee : DcbConfig → St (Hw D) Status
  hw_config_cee cfg = do
    let refill = unpack_refill_cee cfg tx_config
    let max = unpack_max_cee cfg
    let bwgid = unpack_bwgid_cee cfg tx_config
    let tsa = unpack_tsa_cee cfg tx_config
    let prio_map = unpack_map_cee cfg tx_config
    _ ← dcb_config cfg
    ret ← hw_config refill max bwgid tsa prio_map
    if is_success ret && cfg.pfc_mode_enable
        then config_pfc (unpack_pfc_cee cfg prio_map) prio_map
        else pure ret
