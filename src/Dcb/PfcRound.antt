-- ===== src/Dcb/PfcRound.antt =====
-- One round of each of the threshold loops of src/txgbe_dcb.c `txgbe_dcb_config_pfc`.
use txgbe.Base.{
  ℕ, ◌+◌, ◌≤◌, ◌<◌, bit_or, ltb, ◌≡◌, ◌≢◌, ap, ◌∙◌, Bool, true, if◌then◌else◌, List, [], ◌∷◌,
  get_or, arith,
}
use native.Mathlib.Decide.{ℕ_discrete}
use txgbe.Hw.{Hw, Bus, FcInfo}
use txgbe.Reg.{rd32, wr32, shl32}
use txgbe.Reg.Frame.{rd32-mapped, wr32-mapped}
use txgbe.Reg.Ram.{Ram, rd32-cell, rd32_value, wr32-cell_self, wr32-cell_ne}
use txgbe.Dcb.PfcHw.{
  rdb_rfcl, rdb_rfch, rdb_pb_sz, rfch_xoffe, enabled, max_tc, pfc_thresholds, clear_thresholds,
  rfcl_xone,
}

-- A class that some priority is mapped to is at most the largest class of the map.
max_tc-ge : (prio_map : List ℕ) (m : ℕ) → m ≤ max_tc prio_map m
unfolding max_tc
max_tc-ge [] m = omega arith
max_tc-ge (tc ∷ prio_map) m = ground (arith, max_tc-ge prio_map (if ltb m tc then tc else m))

pub enabled-max_tc :
    (pfc_en i : ℕ) (prio_map : List ℕ) (j m : ℕ)
    → enabled pfc_en i prio_map j ≡ true
    → i ≤ max_tc prio_map m
unfolding enabled max_tc
enabled-max_tc pfc_en i [] j m h = ground arith
enabled-max_tc pfc_en i (tc ∷ prio_map) j m h = ground (
  arith,
  max_tc-ge prio_map (if ltb m tc then tc else m),
  enabled-max_tc pfc_en i prio_map (j + 1) (if ltb m tc then tc else m),
)

module _ {D : Type 0} ⦃bus : Bus D⦄ {cell : ℕ → D → ℕ} (ram : Ram bus cell) (pfc_en : ℕ)
    (prio_map : List ℕ) where
  pub pfc_thresholds-mapped :
      (k : ℕ) (hw : Hw D) → (pfc_thresholds pfc_en prio_map k hw).1.mapped ≡ hw.mapped
  unfolding pfc_thresholds rd32 wr32
  pfc_thresholds-mapped k hw = ground arith

  pfc_thresholds-fc : (k : ℕ) (hw : Hw D) → (pfc_thresholds pfc_en prio_map k hw).1.fc ≡ hw.fc
  unfolding pfc_thresholds rd32 wr32
  pfc_thresholds-fc k hw = ground arith

  pfc_thresholds-cell_ne :
      (b k : ℕ) (hw : Hw D)
      → rdb_rfcl k ≢ b
      → rdb_rfch k ≢ b
      → cell b (pfc_thresholds pfc_en prio_map k hw).1.dev ≡ cell b hw.dev
  unfolding pfc_thresholds
  pfc_thresholds-cell_ne b k hw ne ne' =
      let lo = bit_or (shl32 (get_or hw.fc.low_water k 0) 10) rfcl_xone in
      let hi = bit_or (shl32 (get_or hw.fc.high_water k 0) 10) rfch_xoffe in
      let hw1 = (rd32 (rdb_pb_sz k) hw).1 in
      ground (
        arith,
        rd32-cell ram (rdb_pb_sz k) b hw,
        wr32-cell_ne ram (rdb_rfcl k) b 0 hw1 ne,
        wr32-cell_ne ram (rdb_rfch k) b (rd32 (rdb_pb_sz k) hw).0 (wr32 (rdb_rfcl k) 0 hw1).1 ne',
        wr32-cell_ne ram (rdb_rfch k) b lo hw ne',
        wr32-cell_ne ram (rdb_rfch k) b hi (wr32 (rdb_rfch k) lo hw).1 ne',
      )

  -- What the round of class `i` writes.
  pfc_thresholds-rfch :
      (i : ℕ) (hw : Hw D)
      → hw.mapped ≡ true
      → cell (rdb_rfch i) (pfc_thresholds pfc_en prio_map i hw).1.dev ≡ (
          if enabled pfc_en i prio_map 0
          then bit_or (shl32 (get_or hw.fc.high_water i 0) 10) rfch_xoffe
          else cell (rdb_pb_sz i) hw.dev)
  unfolding pfc_thresholds
  pfc_thresholds-rfch i hw m =
      let lo = bit_or (shl32 (get_or hw.fc.low_water i 0) 10) rfcl_xone in
      let hi = bit_or (shl32 (get_or hw.fc.high_water i 0) 10) rfch_xoffe in
      let hw1 = (rd32 (rdb_pb_sz i) hw).1 in
      let hw2 = (wr32 (rdb_rfch i) lo hw).1 in
      let m1 : hw1.mapped ≡ true = rd32-mapped (rdb_pb_sz i) hw ∙ m in
      let m2 : hw2.mapped ≡ true = wr32-mapped (rdb_rfch i) lo hw ∙ m in
      let m3 : (wr32 (rdb_rfcl i) 0 hw1).1.mapped ≡ true = wr32-mapped (rdb_rfcl i) 0 hw1 ∙ m1 in
      ground (
        arith,
        rd32_value ram (rdb_pb_sz i) hw m,
        wr32-cell_self ram (rdb_rfch i) (rd32 (rdb_pb_sz i) hw).0 (wr32 (rdb_rfcl i) 0 hw1).1 m3,
        wr32-cell_self ram (rdb_rfch i) hi hw2 m2,
      )

  pfc_thresholds-rfcl :
      (i old : ℕ) (hw : Hw D)
      → hw.mapped ≡ true
      → (enabled pfc_en i prio_map 0 ≡ true → cell (rdb_rfcl i) hw.dev ≡ old)
      → cell (rdb_rfcl i) (pfc_thresholds pfc_en prio_map i hw).1.dev
        ≡ (if enabled pfc_en i prio_map 0 then old else 0)
  unfolding pfc_thresholds
  pfc_thresholds-rfcl i old hw m same =
      let lo = bit_or (shl32 (get_or hw.fc.low_water i 0) 10) rfcl_xone in
      let hi = bit_or (shl32 (get_or hw.fc.high_water i 0) 10) rfch_xoffe in
      let hw1 = (rd32 (rdb_pb_sz i) hw).1 in
      let hw2 = (wr32 (rdb_rfch i) lo hw).1 in
      let m1 : hw1.mapped ≡ true = rd32-mapped (rdb_pb_sz i) hw ∙ m in
      let ne : rdb_rfch i ≢ rdb_rfcl i = λ e. omega arith in
      ground (
        arith,
        wr32-cell_self ram (rdb_rfcl i) 0 hw1 m1,
        wr32-cell_ne ram (rdb_rfch i) (rdb_rfcl i) (rd32 (rdb_pb_sz i) hw).0
            (wr32 (rdb_rfcl i) 0 hw1).1 ne,
        wr32-cell_ne ram (rdb_rfch i) (rdb_rfcl i) lo hw ne,
        wr32-cell_ne ram (rdb_rfch i) (rdb_rfcl i) hi hw2 ne,
      )

  pub clear_thresholds-cell_ne :
      (b k : ℕ) (hw : Hw D)
      → rdb_rfcl k ≢ b
      → rdb_rfch k ≢ b
      → cell b (clear_thresholds k hw).1.dev ≡ cell b hw.dev
  unfolding clear_thresholds
  clear_thresholds-cell_ne b k hw ne ne' =
      wr32-cell_ne ram (rdb_rfch k) b 0 (wr32 (rdb_rfcl k) 0 hw).1 ne'
      ∙ wr32-cell_ne ram (rdb_rfcl k) b 0 hw ne

  pub clear_thresholds-mapped : (k : ℕ) (hw : Hw D) → (clear_thresholds k hw).1.mapped ≡ hw.mapped
  unfolding clear_thresholds wr32
  clear_thresholds-mapped k hw = ground arith

  pub clear_thresholds_zero :
      (i : ℕ) (hw : Hw D)
      → hw.mapped ≡ true
      → (cell (rdb_rfch i) (clear_thresholds i hw).1.dev ≡ 0)
        × (cell (rdb_rfcl i) (clear_thresholds i hw).1.dev ≡ 0)
  unfolding clear_thresholds
  clear_thresholds_zero i hw m =
      let hw1 = (wr32 (rdb_rfcl i) 0 hw).1 in
      (
        wr32-cell_self ram (rdb_rfch i) 0 hw1 (wr32-mapped (rdb_rfcl i) 0 hw ∙ m),
        wr32-cell_ne ram (rdb_rfch i) (rdb_rfcl i) 0 hw1 (λ e. omega arith)
            ∙ wr32-cell_self ram (rdb_rfcl i) 0 hw m,
      )

  -- A state of the run at which the registers of class `i` are still to be programmed.
  pub record Before (i : ℕ) (hw : Hw D) (s : Hw D) : Type 0 where
    pub mapped : s.mapped ≡ true
    pub fc : s.fc ≡ hw.fc
    pub pb_sz : cell (rdb_pb_sz i) s.dev ≡ cell (rdb_pb_sz i) hw.dev
    pub rfcl :
        enabled pfc_en i prio_map 0 ≡ true → cell (rdb_rfcl i) s.dev ≡ cell (rdb_rfcl i) hw.dev

  -- The two threshold registers of class `i` hold `hi` and `lo`.
  abbrev pub Holds : ℕ → ℕ → ℕ → Hw D → Type 0
  Holds i hi lo s = (cell (rdb_rfch i) s.dev ≡ hi) × (cell (rdb_rfcl i) s.dev ≡ lo)

  abbrev pub rfch_of : ℕ → Hw D → ℕ
  rfch_of i hw =
      if enabled pfc_en i prio_map 0
      then bit_or (shl32 (get_or hw.fc.high_water i 0) 10) rfch_xoffe
      else cell (rdb_pb_sz i) hw.dev

  abbrev pub rfcl_of : ℕ → Hw D → ℕ
  rfcl_of i hw = if enabled pfc_en i prio_map 0 then cell (rdb_rfcl i) hw.dev else 0

  pub pfc_thresholds-Before :
      (i : ℕ) (hw : Hw D) (k : ℕ)
      → k < 8
      → i < 8
      → (s : Hw D) → Before i hw s
      → Before i hw (pfc_thresholds pfc_en prio_map k s).1
  pfc_thresholds-Before i hw k below below' s b = record {
    mapped = pfc_thresholds-mapped k s ∙ b.mapped;
    fc = pfc_thresholds-fc k s ∙ b.fc;
    pb_sz =
        pfc_thresholds-cell_ne (rdb_pb_sz i) k s (λ e. omega arith) (λ e. omega arith) ∙ b.pb_sz;
    rfcl = λ on. elim (ℕ_discrete k i) [
      | yes e ↦
          ap (λ (j : ℕ). cell (rdb_rfcl i) (pfc_thresholds pfc_en prio_map j s).1.dev) e
          ∙ pfc_thresholds-rfcl i (cell (rdb_rfcl i) hw.dev) s b.mapped b.rfcl
          ∙ ap (λ (t : Bool). if t then cell (rdb_rfcl i) hw.dev else 0) on
      | no ne ↦
          pfc_thresholds-cell_ne (rdb_rfcl i) k s (λ e. ne (omega arith)) (λ e. omega arith)
          ∙ b.rfcl on
    ];
  }

  pub pfc_thresholds-reach :
      (i : ℕ) (hw s : Hw D)
      → Before i hw s
      → Holds i (rfch_of i hw) (rfcl_of i hw) (pfc_thresholds pfc_en prio_map i s).1
  pfc_thresholds-reach i hw s b = (
    pfc_thresholds-rfch i s b.mapped
        ∙ ap
            (λ (f : FcInfo).
              if enabled pfc_en i prio_map 0
              then bit_or (shl32 (get_or f.high_water i 0) 10) rfch_xoffe
              else cell (rdb_pb_sz i) s.dev)
            b.fc
        ∙ ap
            (λ (v : ℕ).
              if enabled pfc_en i prio_map 0
              then bit_or (shl32 (get_or hw.fc.high_water i 0) 10) rfch_xoffe
              else v)
            b.pb_sz,
    pfc_thresholds-rfcl i (cell (rdb_rfcl i) hw.dev) s b.mapped b.rfcl,
  )

  pub pfc_thresholds-Holds :
      (i hi lo k : ℕ)
      → i ≢ k
      → k < 8
      → i < 8
      → (s : Hw D) → Holds i hi lo s
      → Holds i hi lo (pfc_thresholds pfc_en prio_map k s).1
  pfc_thresholds-Holds i hi lo k ne below below' s h = (
    pfc_thresholds-cell_ne (rdb_rfch i) k s (λ e. omega arith) (λ e. ne (omega arith)) ∙ h.0,
    pfc_thresholds-cell_ne (rdb_rfcl i) k s (λ e. ne (omega arith)) (λ e. omega arith) ∙ h.1,
  )

  pub clear_thresholds-Holds :
      (i hi lo k : ℕ)
      → i ≢ k
      → k < 8
      → i < 8
      → (s : Hw D) → Holds i hi lo s
      → Holds i hi lo (clear_thresholds k s).1
  clear_thresholds-Holds i hi lo k ne below below' s h = (
    clear_thresholds-cell_ne (rdb_rfch i) k s (λ e. omega arith) (λ e. ne (omega arith)) ∙ h.0,
    clear_thresholds-cell_ne (rdb_rfcl i) k s (λ e. ne (omega arith)) (λ e. omega arith) ∙ h.1,
  )

  pub wr32-Holds :
      (i hi lo a v : ℕ)
      → a ≢ rdb_rfch i
      → a ≢ rdb_rfcl i
      → (s : Hw D) → Holds i hi lo s
      → Holds i hi lo (wr32 a v s).1
  wr32-Holds i hi lo a v ne ne' s h =
      (wr32-cell_ne ram a (rdb_rfch i) v s ne ∙ h.0, wr32-cell_ne ram a (rdb_rfcl i) v s ne' ∙ h.1)
