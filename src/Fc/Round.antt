-- ===== src/Fc/Round.antt =====
-- One round of the threshold loop of src/txgbe_hw.c `txgbe_fc_enable`.
use txgbe.Base.{
  ℕ, ◌+◌, ◌-◌, ◌%◌, ◌^◌, bit_or, ◌≡◌, ◌≢◌, ◌∙◌, ap, true, if◌then◌else◌, get_or, arith,
}
use txgbe.Hw.{Hw, Bus, FcInfo}
use txgbe.Reg.{rd32, wr32, shl32}
use txgbe.Reg.Frame.{rd32-mapped, wr32-mapped}
use txgbe.Reg.Ram.{Ram, rd32-cell, rd32_value, wr32-cell_self, wr32-cell_ne}
use txgbe.Dcb.PfcHw.{rdb_rfcl, rdb_rfch, rdb_pb_sz, rfch_xoffe}
use txgbe.Fc.Enable.{sends_xoff, fc_thresholds}

-- The thresholds of class `i`, of the size of its packet buffer.
abbrev pub rfcl_of : FcInfo → ℕ → ℕ
rfcl_of fc i = if sends_xoff fc i then shl32 (get_or fc.low_water i 0) 10 else 0

abbrev pub rfch_of : FcInfo → ℕ → ℕ → ℕ
rfch_of fc i pb_sz =
    if sends_xoff fc i
    then bit_or (shl32 (get_or fc.high_water i 0) 10) rfch_xoffe
    else (pb_sz + (2 ^ 32 - 24576)) % 2 ^ 32

module _ {D : Type 0} ⦃bus : Bus D⦄ {cell : ℕ → D → ℕ} (ram : Ram bus cell) where
  pub fc_thresholds-mapped : (k : ℕ) (hw : Hw D) → (fc_thresholds k hw).1.mapped ≡ hw.mapped
  unfolding fc_thresholds rd32 wr32
  fc_thresholds-mapped k hw = ground arith

  pub fc_thresholds-fc : (k : ℕ) (hw : Hw D) → (fc_thresholds k hw).1.fc ≡ hw.fc
  unfolding fc_thresholds rd32 wr32
  fc_thresholds-fc k hw = ground arith

  pub fc_thresholds-cell_ne :
      (b k : ℕ) (hw : Hw D)
      → rdb_rfcl k ≢ b
      → rdb_rfch k ≢ b
      → cell b (fc_thresholds k hw).1.dev ≡ cell b hw.dev
  unfolding fc_thresholds
  fc_thresholds-cell_ne b k hw ne ne' =
      let lo = shl32 (get_or hw.fc.low_water k 0) 10 in
      let hi = bit_or (shl32 (get_or hw.fc.high_water k 0) 10) rfch_xoffe in
      let hw1 = (wr32 (rdb_rfcl k) 0 hw).1 in
      let pb = (rd32 (rdb_pb_sz k) hw1).0 in
      ground (
        arith,
        wr32-cell_ne ram (rdb_rfcl k) b lo hw ne,
        wr32-cell_ne ram (rdb_rfch k) b hi (wr32 (rdb_rfcl k) lo hw).1 ne',
        wr32-cell_ne ram (rdb_rfcl k) b 0 hw ne,
        rd32-cell ram (rdb_pb_sz k) b hw1,
        wr32-cell_ne ram (rdb_rfch k) b ((pb + (2 ^ 32 - 24576)) % 2 ^ 32)
            (rd32 (rdb_pb_sz k) hw1).1 ne',
      )

  pub fc_thresholds_values :
      (i : ℕ) (hw : Hw D)
      → hw.mapped ≡ true
      → (cell (rdb_rfch i) (fc_thresholds i hw).1.dev ≡ rfch_of hw.fc i (cell (rdb_pb_sz i) hw.dev))
        × (cell (rdb_rfcl i) (fc_thresholds i hw).1.dev ≡ rfcl_of hw.fc i)
  unfolding fc_thresholds
  fc_thresholds_values i hw m =
      let lo = shl32 (get_or hw.fc.low_water i 0) 10 in
      let hi = bit_or (shl32 (get_or hw.fc.high_water i 0) 10) rfch_xoffe in
      let hw1 = (wr32 (rdb_rfcl i) lo hw).1 in
      let hw2 = (wr32 (rdb_rfcl i) 0 hw).1 in
      let m1 : hw1.mapped ≡ true = wr32-mapped (rdb_rfcl i) lo hw ∙ m in
      let m2 : hw2.mapped ≡ true = wr32-mapped (rdb_rfcl i) 0 hw ∙ m in
      let hw3 = (rd32 (rdb_pb_sz i) hw2).1 in
      let m3 : hw3.mapped ≡ true = rd32-mapped (rdb_pb_sz i) hw2 ∙ m2 in
      let pb = ((rd32 (rdb_pb_sz i) hw2).0 + (2 ^ 32 - 24576)) % 2 ^ 32 in
      let ne : rdb_rfch i ≢ rdb_rfcl i = λ e. omega arith in
      let size : (rd32 (rdb_pb_sz i) hw2).0 ≡ cell (rdb_pb_sz i) hw.dev =
        rd32_value ram (rdb_pb_sz i) hw2 m2
        ∙ wr32-cell_ne ram (rdb_rfcl i) (rdb_pb_sz i) 0 hw (λ e. omega arith) in
      (
        ground (
          arith,
          wr32-cell_self ram (rdb_rfch i) hi hw1 m1,
          wr32-cell_self ram (rdb_rfch i) pb hw3 m3
              ∙ ap (λ (v : ℕ). (v + (2 ^ 32 - 24576)) % 2 ^ 32) size,
        ),
        ground (
          arith,
          wr32-cell_ne ram (rdb_rfch i) (rdb_rfcl i) hi hw1 ne,
          wr32-cell_self ram (rdb_rfcl i) lo hw m,
          wr32-cell_ne ram (rdb_rfch i) (rdb_rfcl i) pb hw3 ne,
          rd32-cell ram (rdb_pb_sz i) (rdb_rfcl i) hw2,
          wr32-cell_self ram (rdb_rfcl i) 0 hw m,
        ),
      )
