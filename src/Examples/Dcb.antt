-- ===== src/Examples/Dcb.antt =====
-- The theorems on data centre bridging at concrete configurations.
use txgbe.Base.{
  ℕ, ◌*◌, ◌<◌, ◌≤◌, ◌≡◌, refl, max, bit, bit_or, leb, List, [], ◌∷◌, get_or, replicate, true, false,
  if◌then◌else◌, arith,
}
use txgbe.Hw.{Hw, success, err_param}
use txgbe.Reg.{shl32}
use txgbe.Dcb.Config.{
  TcPath, DcbConfig, tx_config, tsa_ets, tsa_strict, Tsa, pfc_enabled, pfc_disabled,
}
use txgbe.Dcb.Credits.{min_credit_of, calculate_tc_credits, multiplier_of, smallest, refill_of}
use txgbe.Dcb.Unpack.{get_tc_from_up, unpack_pfc_cee}
use txgbe.Dcb.PfcHw.{rdb_rfcl, rdb_rfch, rfch_xoffe, enabled, max_tc, config_pfc}
use txgbe.Dcb.Pfc.{config_pfc_thresholds}
use txgbe.Dcb.Ratio.{refill_bounds, refill_ratio}
use txgbe.Dcb.UpMap.{get_tc_from_up-IsHighest, IsHighest, bit-unpack_pfc_cee}
use txgbe.Dcb.Arbiter.{
  rdm_arb_cfg, tdm_pbwarb_cfg, tdb_pbrarb_cfg, rdb_up2tc, tdb_up2tc, up2tc_value, rx_arb_value,
  tx_desc_value, tx_data_value, hw_config,
}
use txgbe.Dcb.Arbiters.{hw_config_registers}
use txgbe.Dcb.Fields.{arb_value-fields}
use txgbe.Examples.Device.{Memory, zeros, ram_bus, ram_bus-Ram, hw_over}

-- Two classes with 60 and 40 percent; priorities 4 to 7 are the second's.
abbrev link_share : ℕ → ℕ → TcPath
link_share percent priorities = record {
  bwg_id = 0;
  bwg_percent = percent;
  link_percent = 0;
  up_to_tc_bitmap = priorities;
  data_credits_refill = 0;
  data_credits_max = 0;
  tsa = tsa_ets;
}

abbrev sample_config : DcbConfig
sample_config = record {
  tc_config =
      (record {
        tx_path = link_share 60 0x0f;
        rx_path = link_share 60 0x0f;
        pfc = pfc_disabled;
        desc_credits_max = 0;
      })
      ∷ (record {
        tx_path = link_share 40 0xf0;
        rx_path = link_share 40 0xf0;
        pfc = pfc_enabled;
        desc_credits_max = 0;
      })
      ∷ [];
  pg_tcs = 2;
  bw_percentage_tx = 100 ∷ [];
  bw_percentage_rx = 100 ∷ [];
  pfc_mode_enable = true;
  vt_mode = false;
}

abbrev sample_map : List ℕ
sample_map = 0 ∷ 0 ∷ 0 ∷ 0 ∷ 1 ∷ 1 ∷ 1 ∷ 1 ∷ []

abbrev sample_hw : Hw Memory
sample_hw = hw_over zeros

few_classes : max_tc sample_map 0 < 8
unfolding max_tc
few_classes = omega arith

config_pfc_thresholds_example :
    let after = config_pfc ⦃bus = ram_bus⦄ 0xf0 sample_map sample_hw in
    (after.1.dev (rdb_rfch 1) ≡ (
      if enabled 0xf0 1 sample_map 0
      then bit_or (shl32 100 10) rfch_xoffe
      else if leb 1 (max_tc sample_map 0)
      then 0
      else 0))
    × (after.1.dev (rdb_rfcl 1) ≡ (if enabled 0xf0 1 sample_map 0 then 0 else 0))
    × (after.0 ≡ err_param)
config_pfc_thresholds_example =
    config_pfc_thresholds ⦃bus = ram_bus⦄ ram_bus-Ram 0xf0 sample_map 1 sample_hw refl few_classes
      (omega arith)

abbrev shares : List ℕ
shares = 10 ∷ 30 ∷ 60 ∷ []

abbrev sample_refill : ℕ → ℕ
sample_refill i = get_or (calculate_tc_credits shares 1500).0 i 0

refill_bounds_example :
    (min_credit_of 1500 ≤ sample_refill 1) × (sample_refill 1 ≤ max 200 (min_credit_of 1500))
refill_bounds_example = refill_bounds shares 1500 1 (omega arith) (omega arith)

below_cap : (sample_refill 0 < 200) × (sample_refill 1 < 200)
unfolding calculate_tc_credits multiplier_of smallest refill_of min_credit_of
below_cap = (omega arith, omega arith)

refill_ratio_example : sample_refill 0 * 30 ≡ sample_refill 1 * 10
refill_ratio_example =
    refill_ratio shares 1500 0 1 (omega arith) (omega arith) (omega arith) (λ e. omega arith)
      (λ e. omega arith) below_cap.0 below_cap.1

get_tc_from_up-IsHighest_example :
    IsHighest sample_config tx_config 5 1 (get_tc_from_up sample_config tx_config 5)
get_tc_from_up-IsHighest_example = get_tc_from_up-IsHighest sample_config tx_config 5 (omega arith)

bit-unpack_pfc_cee_example : bit 5 (unpack_pfc_cee sample_config sample_map) ≡ 1
bit-unpack_pfc_cee_example = bit-unpack_pfc_cee sample_config sample_map 5 (omega arith)

abbrev refills : List ℕ
refills = replicate 8 40

abbrev maxima : List ℕ
maxima = replicate 8 120

abbrev groups : List ℕ
groups = replicate 8 2

abbrev selections : List Tsa
selections = replicate 8 tsa_strict

arb_value-fields_example :
    (bit 31 (rx_arb_value 40 120 2 tsa_strict) ≡ 1)
    × (bit 31 (tx_desc_value 40 120 2 tsa_strict) ≡ 1)
    × (bit 31 (tx_data_value 40 120 2 tsa_strict) ≡ 1)
arb_value-fields_example =
    arb_value-fields 40 120 2 31 (omega arith) (omega arith) (omega arith) tsa_strict

hw_config_registers_example :
    let after = hw_config ⦃bus = ram_bus⦄ refills maxima groups selections sample_map sample_hw in
    (after.0 ≡ success)
    × (after.1.dev (rdm_arb_cfg 3) ≡ rx_arb_value 40 120 2 tsa_strict)
    × (after.1.dev (tdm_pbwarb_cfg 3) ≡ tx_desc_value 40 120 2 tsa_strict)
    × (after.1.dev (tdb_pbrarb_cfg 3) ≡ tx_data_value 40 120 2 tsa_strict)
    × (after.1.dev rdb_up2tc ≡ up2tc_value sample_map 0 0)
    × (after.1.dev tdb_up2tc ≡ up2tc_value sample_map 0 0)
hw_config_registers_example =
    hw_config_registers ⦃bus = ram_bus⦄ ram_bus-Ram refills maxima groups selections sample_map 3
      sample_hw (omega arith) refl
