-- ===== src/Dcb/Arbiters.antt =====
-- What the three arbiters hold after src/txgbe_dcb.c `txgbe_dcb_hw_config`.
use txgbe.Base.{ℕ, ◌<◌, ◌≡◌, ◌≢◌, ◌∙◌, refl, true, List, get_or, bit_or, arith}
use txgbe.Hw.{Hw, Bus, success}
use txgbe.Reg.{wr32}
use txgbe.Reg.Frame.{wr32-mapped}
use txgbe.Reg.Ram.{Ram, wr32-cell_self, wr32-cell_ne}
use txgbe.Reg.Sweep.{sweep, sweep-mapped, sweep-keeps, sweep_value}
use txgbe.Dcb.Config.{Tsa, tsa_ets}
use txgbe.Dcb.Arbiter.{
  rdm_arb_ctl, rdm_arb_cfg, rdb_up2tc, tdm_pbwarb_ctl, tdm_pbwarb_cfg, tdm_vm_credit,
  tdb_pbrarb_ctl, tdb_pbrarb_cfg, tdb_up2tc, up2tc_value, rx_arb_value, tx_desc_value,
  tx_data_value, config_rx_arbiter, config_tx_desc_arbiter, config_tx_data_arbiter, hw_config,
}

module _ {D : Type 0} ⦃bus : Bus D⦄ {cell : ℕ → D → ℕ} (ram : Ram bus cell)
    (refill max bwg_id : List ℕ) (tsa : List Tsa) where
  -- The value that an arbiter is given for class `i`.
  abbrev pub class_value : (ℕ → ℕ → ℕ → Tsa → ℕ) → ℕ → ℕ
  class_value value i =
      value (get_or refill i 0) (get_or max i 0) (get_or bwg_id i 0) (get_or tsa i tsa_ets)

  module _ (i : ℕ) (below : i < 8) (hw : Hw D) where
    rx_arbiter_values :
        (prio_map : List ℕ)
        → hw.mapped ≡ true
        → let after = (config_rx_arbiter refill max bwg_id tsa prio_map hw).1 in
          (after.mapped ≡ true)
          × (cell (rdm_arb_cfg i) after.dev ≡ class_value rx_arb_value i)
          × (cell rdb_up2tc after.dev ≡ up2tc_value prio_map 0 0)
    unfolding config_rx_arbiter
    rx_arbiter_values prio_map m =
        let v = up2tc_value prio_map 0 0 in
        let hw1 = (wr32 rdm_arb_ctl (bit_or 0x2 (bit_or 0x4 0x40)) hw).1 in
        let m1 : hw1.mapped ≡ true = wr32-mapped rdm_arb_ctl _ hw ∙ m in
        let hw2 = (wr32 rdb_up2tc v hw1).1 in
        let m2 : hw2.mapped ≡ true = wr32-mapped rdb_up2tc v hw1 ∙ m1 in
        let hw3 = sweep rdm_arb_cfg (class_value rx_arb_value) 8 hw2 in
        let end = bit_or 0x2 0x4 in
        (
          wr32-mapped rdm_arb_ctl end hw3 ∙ sweep-mapped rdm_arb_cfg _ 8 hw2 m2,
          wr32-cell_ne ram rdm_arb_ctl (rdm_arb_cfg i) end hw3 (λ e. omega arith)
              ∙ sweep_value rdm_arb_cfg (class_value rx_arb_value) 8 ram i hw2 m2 below
                  (λ k h e. omega arith),
          wr32-cell_ne ram rdm_arb_ctl rdb_up2tc end hw3 (λ e. omega arith)
              ∙ sweep-keeps rdm_arb_cfg (class_value rx_arb_value) 8 ram rdb_up2tc hw2
                  (λ k h e. omega arith)
              ∙ wr32-cell_self ram rdb_up2tc v hw1 m1,
        )

    tx_desc_arbiter_values :
        hw.mapped ≡ true
        → let after = (config_tx_desc_arbiter refill max bwg_id tsa hw).1 in
          (after.mapped ≡ true) × (cell (tdm_pbwarb_cfg i) after.dev ≡ class_value tx_desc_value i)
    unfolding config_tx_desc_arbiter
    tx_desc_arbiter_values m =
        let hw1 = sweep tdm_vm_credit (λ _. 0) 128 hw in
        let m1 : hw1.mapped ≡ true = sweep-mapped tdm_vm_credit (λ _. 0) 128 hw m in
        let hw2 = sweep tdm_pbwarb_cfg (class_value tx_desc_value) 8 hw1 in
        let end = bit_or 0x1 0x10 in
        (
          wr32-mapped tdm_pbwarb_ctl end hw2 ∙ sweep-mapped tdm_pbwarb_cfg _ 8 hw1 m1,
          wr32-cell_ne ram tdm_pbwarb_ctl (tdm_pbwarb_cfg i) end hw2 (λ e. omega arith)
              ∙ sweep_value tdm_pbwarb_cfg (class_value tx_desc_value) 8 ram i hw1 m1 below
                  (λ k h e. omega arith),
        )

    tx_data_arbiter_values :
        (prio_map : List ℕ)
        → hw.mapped ≡ true
        → let after = (config_tx_data_arbiter refill max bwg_id tsa prio_map hw).1 in
          (cell (tdb_pbrarb_cfg i) after.dev ≡ class_value tx_data_value i)
          × (cell tdb_up2tc after.dev ≡ up2tc_value prio_map 0 0)
    unfolding config_tx_data_arbiter
    tx_data_arbiter_values prio_map m =
        let v = up2tc_value prio_map 0 0 in
        let start = bit_or 0x20 (bit_or 0x100 0x40) in
        let hw1 = (wr32 tdb_pbrarb_ctl start hw).1 in
        let m1 : hw1.mapped ≡ true = wr32-mapped tdb_pbrarb_ctl start hw ∙ m in
        let hw2 = (wr32 tdb_up2tc v hw1).1 in
        let m2 : hw2.mapped ≡ true = wr32-mapped tdb_up2tc v hw1 ∙ m1 in
        let hw3 = sweep tdb_pbrarb_cfg (class_value tx_data_value) 8 hw2 in
        let end = bit_or 0x20 0x100 in
        (
          wr32-cell_ne ram tdb_pbrarb_ctl (tdb_pbrarb_cfg i) end hw3 (λ e. omega arith)
              ∙ sweep_value tdb_pbrarb_cfg (class_value tx_data_value) 8 ram i hw2 m2 below
                  (λ k h e. omega arith),
          wr32-cell_ne ram tdb_pbrarb_ctl tdb_up2tc end hw3 (λ e. omega arith)
              ∙ sweep-keeps tdb_pbrarb_cfg (class_value tx_data_value) 8 ram tdb_up2tc hw2
                  (λ k h e. omega arith)
              ∙ wr32-cell_self ram tdb_up2tc v hw1 m1,
        )

  tx_desc_arbiter-keeps :
      (b : ℕ) (hw : Hw D)
      → ((k : ℕ) → k < 128 → tdm_vm_credit k ≢ b)
      → ((k : ℕ) → k < 8 → tdm_pbwarb_cfg k ≢ b)
      → tdm_pbwarb_ctl ≢ b
      → cell b (config_tx_desc_arbiter refill max bwg_id tsa hw).1.dev ≡ cell b hw.dev
  unfolding config_tx_desc_arbiter
  tx_desc_arbiter-keeps b hw ne ne' ne_ctl =
      let hw1 = sweep tdm_vm_credit (λ _. 0) 128 hw in
      let hw2 = sweep tdm_pbwarb_cfg (class_value tx_desc_value) 8 hw1 in
      wr32-cell_ne ram tdm_pbwarb_ctl b (bit_or 0x1 0x10) hw2 ne_ctl
      ∙ sweep-keeps tdm_pbwarb_cfg (class_value tx_desc_value) 8 ram b hw1 ne'
      ∙ sweep-keeps tdm_vm_credit (λ _. 0) 128 ram b hw ne

  tx_data_arbiter-keeps :
      (b : ℕ) (prio_map : List ℕ) (hw : Hw D)
      → ((k : ℕ) → k < 8 → tdb_pbrarb_cfg k ≢ b)
      → tdb_pbrarb_ctl ≢ b
      → tdb_up2tc ≢ b
      → cell b (config_tx_data_arbiter refill max bwg_id tsa prio_map hw).1.dev ≡ cell b hw.dev
  unfolding config_tx_data_arbiter
  tx_data_arbiter-keeps b prio_map hw ne ne_ctl ne_map =
      let v = up2tc_value prio_map 0 0 in
      let start = bit_or 0x20 (bit_or 0x100 0x40) in
      let hw1 = (wr32 tdb_pbrarb_ctl start hw).1 in
      let hw2 = (wr32 tdb_up2tc v hw1).1 in
      let hw3 = sweep tdb_pbrarb_cfg (class_value tx_data_value) 8 hw2 in
      wr32-cell_ne ram tdb_pbrarb_ctl b (bit_or 0x20 0x100) hw3 ne_ctl
      ∙ sweep-keeps tdb_pbrarb_cfg (class_value tx_data_value) 8 ram b hw2 ne
      ∙ wr32-cell_ne ram tdb_up2tc b v hw1 ne_map
      ∙ wr32-cell_ne ram tdb_pbrarb_ctl b start hw ne_ctl

  -- On a mapped device whose registers hold what was written, `txgbe_dcb_hw_config` succeeds and
  -- leaves in the register of each class below 8, of each of the three arbiters, the value made of
  -- that class's refill, maximum, group and transmission selection, and in both map registers the
  -- packed map of priorities: no write of one arbiter disturbs another.
  pub hw_config_registers :
      (prio_map : List ℕ) (i : ℕ) (hw : Hw D)
      → i < 8
      → hw.mapped ≡ true
      → let after = hw_config refill max bwg_id tsa prio_map hw in
        (after.0 ≡ success)
        × (cell (rdm_arb_cfg i) after.1.dev ≡ class_value rx_arb_value i)
        × (cell (tdm_pbwarb_cfg i) after.1.dev ≡ class_value tx_desc_value i)
        × (cell (tdb_pbrarb_cfg i) after.1.dev ≡ class_value tx_data_value i)
        × (cell rdb_up2tc after.1.dev ≡ up2tc_value prio_map 0 0)
        × (cell tdb_up2tc after.1.dev ≡ up2tc_value prio_map 0 0)
  unfolding hw_config
  hw_config_registers prio_map i hw below m =
      let rx = rx_arbiter_values i below hw prio_map m in
      let hw1 = (config_rx_arbiter refill max bwg_id tsa prio_map hw).1 in
      let desc = tx_desc_arbiter_values i below hw1 rx.0 in
      let hw2 = (config_tx_desc_arbiter refill max bwg_id tsa hw1).1 in
      let data_ = tx_data_arbiter_values i below hw2 prio_map desc.0 in
      (
        refl,
        tx_data_arbiter-keeps (rdm_arb_cfg i) prio_map hw2 (λ k h e. omega arith) (λ e. omega arith)
              (λ e. omega arith)
            ∙ tx_desc_arbiter-keeps (rdm_arb_cfg i) hw1 (λ k h e. omega arith)
                (λ k h e. omega arith) (λ e. omega arith)
            ∙ rx.1,
        tx_data_arbiter-keeps (tdm_pbwarb_cfg i) prio_map hw2 (λ k h e. omega arith)
              (λ e. omega arith) (λ e. omega arith)
            ∙ desc.1,
        data_.0,
        tx_data_arbiter-keeps rdb_up2tc prio_map hw2 (λ k h e. omega arith) (λ e. omega arith)
              (λ e. omega arith)
            ∙ tx_desc_arbiter-keeps rdb_up2tc hw1 (λ k h e. omega arith) (λ k h e. omega arith)
                (λ e. omega arith)
            ∙ rx.2,
        data_.1,
      )
