-- ===== src/Dcb/Pfc.antt =====
-- What src/txgbe_dcb.c `txgbe_dcb_config_pfc` leaves in the threshold registers of each class.
use txgbe.Base.{
  ℕ, suc, ◌-◌, ◌≤◌, ◌<◌, bit_or, leb, nonzero, ◌≡◌, ◌≢◌, ◌⊎◌, inl, inr, ◌∙◌, Bool, true, false,
  Bool-cases, if◌then◌else◌, List, get_or, for_range, for_range_inv, for_range_at, arith, ap, ◌/◌,
  refl, sym,
}
use txgbe.Hw.{Hw, Bus, err_param}
use txgbe.Reg.{wr32, shl32}
use txgbe.Reg.Frame.{wr32-mapped, wr32-fc}
use txgbe.Reg.Ram.{Ram, wr32-cell_ne}
use txgbe.Dcb.PfcHw.{
  rdb_rfcv, rdb_rfcl, rdb_rfch, rdb_rfcrt, rdb_rfcc, rdb_pb_sz, mac_rx_flow_ctrl, rfch_xoffe,
  enabled, max_tc, pfc_thresholds, clear_thresholds, config_pfc, rfcc_rfce_priority,
  mac_rx_flow_ctrl_pfce,
}
use txgbe.Dcb.PfcRound.{
  enabled-max_tc, pfc_thresholds-Before, pfc_thresholds-reach, pfc_thresholds-Holds,
  pfc_thresholds-mapped, clear_thresholds-Holds, clear_thresholds-mapped, clear_thresholds_zero,
  wr32-Holds, Before, Holds, rfch_of, rfcl_of,
}

leb-cases : (a b : ℕ) → ((a ≤ b) × (leb a b ≡ true)) ⊎ ((b < a) × (leb a b ≡ false))
leb-cases a b = elim (Bool-cases (leb a b)) [
  | inl e ↦ inl (ground arith, e)
  | inr e ↦ inr (ground arith, e)
]

module _ {D : Type 0} ⦃bus : Bus D⦄ {cell : ℕ → D → ℕ} (ram : Ram bus cell) (pfc_en : ℕ)
    (prio_map : List ℕ) where
  wr32-Before :
      (i a v : ℕ) (hw s : Hw D)
      → a ≢ rdb_pb_sz i
      → a ≢ rdb_rfcl i
      → Before ram pfc_en prio_map i hw s
      → Before ram pfc_en prio_map i hw (wr32 a v s).1
  wr32-Before i a v hw s ne ne' b = record {
    mapped = wr32-mapped a v s ∙ b.mapped;
    fc = wr32-fc a v s ∙ b.fc;
    pb_sz = wr32-cell_ne ram a (rdb_pb_sz i) v s ne ∙ b.pb_sz;
    rfcl = λ on. wr32-cell_ne ram a (rdb_rfcl i) v s ne' ∙ b.rfcl on;
  }

  -- What the loop over the classes up to the largest one, and the loop over the rest, leave.
  thresholds-used :
      (i : ℕ) (hw s : Hw D)
      → max_tc prio_map 0 < 8
      → i ≤ max_tc prio_map 0
      → Before ram pfc_en prio_map i hw s
      → let m = suc (max_tc prio_map 0) in
        Holds ram pfc_en prio_map i
          (rfch_of ram pfc_en prio_map i hw)
          (rfcl_of ram pfc_en prio_map i hw)
          (for_range
            (8 - m)
            m
            clear_thresholds
            (for_range m 0 (pfc_thresholds pfc_en prio_map) s).1).1
  thresholds-used i hw s few used b =
      let m = suc (max_tc prio_map 0) in
      let Q =
        Holds ram pfc_en prio_map i (rfch_of ram pfc_en prio_map i hw)
          (rfcl_of ram pfc_en prio_map i hw) in
      for_range_inv Q clear_thresholds (8 - m) m
        (λ k lo hi.
          clear_thresholds-Holds ram pfc_en prio_map i _ _ k (λ e. omega arith) (omega arith)
            (omega arith))
        (for_range m 0 (pfc_thresholds pfc_en prio_map) s).1
        (for_range_at (Before ram pfc_en prio_map i hw) Q (pfc_thresholds pfc_en prio_map) m 0 i
          (omega arith) (omega arith)
          (λ k lo hi. pfc_thresholds-Before ram pfc_en prio_map i hw k (omega arith) (omega arith))
          (pfc_thresholds-reach ram pfc_en prio_map i hw)
          (λ k lo hi t _.
            pfc_thresholds-Holds ram pfc_en prio_map i _ _ k (λ e. omega arith) (omega arith)
              (omega arith) t)
          s b)

  thresholds-unused :
      (i : ℕ) (s : Hw D)
      → max_tc prio_map 0 < i
      → i < 8
      → s.mapped ≡ true
      → let m = suc (max_tc prio_map 0) in
        Holds ram pfc_en prio_map i 0 0
          (for_range
            (8 - m)
            m
            clear_thresholds
            (for_range m 0 (pfc_thresholds pfc_en prio_map) s).1).1
  thresholds-unused i s over below mapped =
      let m = suc (max_tc prio_map 0) in
      for_range_at (λ t. t.mapped ≡ true) (Holds ram pfc_en prio_map i 0 0) clear_thresholds (8 - m)
        m i (omega arith) (omega arith)
        (λ k lo hi t e. clear_thresholds-mapped ram pfc_en prio_map k t ∙ e)
        (clear_thresholds_zero ram pfc_en prio_map i)
        (λ k lo hi t _.
          clear_thresholds-Holds ram pfc_en prio_map i 0 0 k (λ e. omega arith) (omega arith)
            (omega arith) t)
        (for_range m 0 (pfc_thresholds pfc_en prio_map) s).1
        (for_range_inv (λ t. t.mapped ≡ true) (pfc_thresholds pfc_en prio_map) m 0
          (λ k lo hi t e. pfc_thresholds-mapped ram pfc_en prio_map k t ∙ e) s mapped)

  -- On a mapped device whose registers hold what was written, for a map whose largest class is
  -- below 8, after `txgbe_dcb_config_pfc` the high threshold register of each class below 8 holds: for a class that an enabled priority is mapped to, the
  -- class's high water mark shifted by 10 with the XOFF bit; for another class up to the largest
  -- of the map, the size of its packet buffer; for the classes above, 0. The low threshold register
  -- of a class that an enabled priority is mapped to holds what it held before the call, and that of
  -- every other class 0. The call returns the parameter error. The comment in the source asks for
  -- the size of the packet buffer less 24 KB where a class has no flow control; the code writes
  -- the whole size, and this is what the theorem states.
  pub config_pfc_thresholds :
      (i : ℕ) (hw : Hw D)
      → hw.mapped ≡ true
      → max_tc prio_map 0 < 8
      → i < 8
      → let after = config_pfc pfc_en prio_map hw in
        (cell (rdb_rfch i) after.1.dev ≡ (
          if enabled pfc_en i prio_map 0
          then bit_or (shl32 (get_or hw.fc.high_water i 0) 10) rfch_xoffe
          else if leb i (max_tc prio_map 0)
          then cell (rdb_pb_sz i) hw.dev
          else 0))
        × (cell (rdb_rfcl i) after.1.dev
            ≡ (if enabled pfc_en i prio_map 0 then cell (rdb_rfcl i) hw.dev else 0))
        × (after.0 ≡ err_param)
  unfolding config_pfc
  config_pfc_thresholds i hw mapped few below =
      let hw1 = (wr32 rdb_rfcc rfcc_rfce_priority hw).1 in
      let v = if nonzero pfc_en then bit_or mac_rx_flow_ctrl_pfce 1 else 0 in
      let hw2 = (wr32 mac_rx_flow_ctrl v hw1).1 in
      let m = suc (max_tc prio_map 0) in
      let hw3 =
        (for_range (8 - m) m clear_thresholds
          (for_range m 0 (pfc_thresholds pfc_en prio_map) hw2).1).1 in
      let start : Before ram pfc_en prio_map i hw hw2 =
        wr32-Before i mac_rx_flow_ctrl v hw hw1 (λ e. omega arith) (λ e. omega arith)
          (wr32-Before i rdb_rfcc rfcc_rfce_priority hw hw (λ e. omega arith) (λ e. omega arith)
            record { mapped = mapped; fc = refl; pb_sz = refl; rfcl = λ on. refl }) in
      let pause = hw3.fc.pause_time in
      let value = bit_or pause (shl32 pause 16) in
      let tail : (hi lo : ℕ)
          → Holds ram pfc_en prio_map i hi lo hw3
          → Holds ram pfc_en prio_map i hi lo
              (wr32 rdb_rfcrt (pause / 2) (for_range 4 0 (λ k. wr32 (rdb_rfcv k) value) hw3).1).1 =
        λ hi lo h.
          wr32-Holds ram pfc_en prio_map i hi lo rdb_rfcrt (pause / 2) (λ e. omega arith)
            (λ e. omega arith) _
            (for_range_inv (Holds ram pfc_en prio_map i hi lo) (λ k. wr32 (rdb_rfcv k) value) 4 0
              (λ k a b.
                wr32-Holds ram pfc_en prio_map i hi lo (rdb_rfcv k) value (λ e. omega arith)
                  (λ e. omega arith))
              hw3 h) in
      elim (leb-cases i (max_tc prio_map 0)) [
        | inl used ↦
            let t = tail _ _ (thresholds-used i hw hw2 few used.0 start) in
            (
              t.0
                  ∙ ap
                      (λ (b : Bool).
                        if enabled pfc_en i prio_map 0
                        then bit_or (shl32 (get_or hw.fc.high_water i 0) 10) rfch_xoffe
                        else if b
                        then cell (rdb_pb_sz i) hw.dev
                        else 0)
                      (sym used.1),
              t.1,
              refl,
            )
        | inr over ↦
            let t = tail 0 0 (thresholds-unused i hw2 over.0 below start.mapped) in
            let off : enabled pfc_en i prio_map 0 ≡ false =
              elim (Bool-cases (enabled pfc_en i prio_map 0)) [
                | inl on ↦ absurd (omega (arith, enabled-max_tc pfc_en i prio_map 0 0 on, over.0))
                | inr e ↦ e
              ] in
            (ground (arith, t.0, off, over.1), ground (arith, t.1, off), refl)
      ]
