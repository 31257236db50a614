-- ===== src/Fc/Finish.antt =====
-- The pieces of src/txgbe_hw.c `txgbe_fc_enable` after the negotiation: the control bits of a mode,
-- the rounds over the classes and the last writes.
use txgbe.Base.{
  ℕ, ◌*◌, ◌/◌, ◌%◌, ◌<◌, ◌^◌, bit, bit-bit_or, bit-bit_and, bit-le-one, bit_and, bit_or, ◌≡◌, ◌≢◌,
  ◌∙◌, ap, refl, true, if◌then◌else◌, for_range, for_range_inv, for_range_at, arith,
}
use txgbe.Hw.{Hw, Bus, FcInfo, FcMode, fc_none, fc_rx_pause, fc_tx_pause, fc_full, fc_default}
use txgbe.Reg.{wr32}
use txgbe.Reg.Ram.{Ram, wr32-cell_ne}
use txgbe.Dcb.PfcHw.{rdb_rfcv, rdb_rfcl, rdb_rfch, rdb_rfcrt, rdb_pb_sz}
use txgbe.Fc.Enable.{fc_thresholds, rx_enable, tx_enable}
use txgbe.Fc.Compat.{sends_pause, obeys_pause}
use txgbe.Fc.Round.{
  rfcl_of, rfch_of, fc_thresholds-mapped, fc_thresholds-fc, fc_thresholds-cell_ne,
  fc_thresholds_values,
}

-- A bit that is masked out is the one that is or-ed in.
pub bit_cleared : (k x c r : ℕ) → bit k c ≡ 0 → bit k (bit_or (bit_and x c) r) ≡ bit k r
bit_cleared k x c r h =
    omega
      (arith, bit-bit_or k (bit_and x c) r, bit-bit_and k x c, h, bit-le-one k x, bit-le-one k r)

-- The control bits of a mode.
pub rx_bits :
    (mode : FcMode)
    → (bit 0 (rx_enable mode) ≡ (if obeys_pause mode then 1 else 0)) × (bit 8 (rx_enable mode) ≡ 0)
unfolding bit
rx_bits fc_none = (refl, refl)
rx_bits fc_rx_pause = (refl, refl)
rx_bits fc_tx_pause = (refl, refl)
rx_bits fc_full = (refl, refl)
rx_bits fc_default = (refl, refl)

pub tx_bits :
    (mode : FcMode)
    → (bit 3 (tx_enable mode) ≡ (if sends_pause mode then 1 else 0)) × (bit 4 (tx_enable mode) ≡ 0)
unfolding bit
tx_bits fc_none = (refl, refl)
tx_bits fc_rx_pause = (refl, refl)
tx_bits fc_tx_pause = (refl, refl)
tx_bits fc_full = (refl, refl)
tx_bits fc_default = (refl, refl)

module _ {D : Type 0} ⦃bus : Bus D⦄ where
  -- What follows the negotiation, from the rounds on.
  abbrev pub finish : Hw D → Hw D
  finish s =
      let t = (for_range 8 0 fc_thresholds s).1 in
      (wr32 rdb_rfcrt (t.fc.pause_time / 2)
        (for_range 4 0 (λ i. wr32 (rdb_rfcv i) (t.fc.pause_time * 0x10001 % 2 ^ 32)) t).1).1

module _ {D : Type 0} ⦃bus : Bus D⦄ {cell : ℕ → D → ℕ} (ram : Ram bus cell) where
  -- The rounds leave the thresholds of class `i` in place.
  thresholds_loop :
      (i p : ℕ) (f : FcInfo) (s : Hw D)
      → i < 8
      → s.mapped ≡ true
      → s.fc ≡ f
      → cell (rdb_pb_sz i) s.dev ≡ p
      → let t = (for_range 8 0 fc_thresholds s).1 in
        (cell (rdb_rfch i) t.dev ≡ rfch_of f i p) × (cell (rdb_rfcl i) t.dev ≡ rfcl_of f i)
  thresholds_loop i p f s below m e size =
      for_range_at (λ (t : Hw D). (t.mapped ≡ true) × (t.fc ≡ f) × (cell (rdb_pb_sz i) t.dev ≡ p))
        (λ (t : Hw D).
          (cell (rdb_rfch i) t.dev ≡ rfch_of f i p) × (cell (rdb_rfcl i) t.dev ≡ rfcl_of f i))
        fc_thresholds 8 0 i (omega arith) (omega arith)
        (λ k lo hi t (a, b, c). (
          fc_thresholds-mapped ram k t ∙ a,
          fc_thresholds-fc ram k t ∙ b,
          fc_thresholds-cell_ne ram (rdb_pb_sz i) k t (λ e. omega arith) (λ e. omega arith) ∙ c,
        ))
        (λ t (a, b, c).
          let v = fc_thresholds_values ram i t a in
          (
            v.0
                ∙ ap (λ (g : FcInfo). rfch_of g i (cell (rdb_pb_sz i) t.dev)) b
                ∙ ap (rfch_of f i) c,
            v.1 ∙ ap (λ (g : FcInfo). rfcl_of g i) b,
          ))
        (λ k lo hi t _ (a, b). (
          fc_thresholds-cell_ne ram (rdb_rfch i) k t (λ e. omega arith) (λ e. omega arith) ∙ a,
          fc_thresholds-cell_ne ram (rdb_rfcl i) k t (λ e. omega arith) (λ e. omega arith) ∙ b,
        ))
        s (m, e, size)

  -- The writes after the rounds keep the other registers.
  tail-keeps :
      (b v w : ℕ) (t : Hw D)
      → ((k : ℕ) → k < 4 → rdb_rfcv k ≢ b)
      → rdb_rfcrt ≢ b
      → cell b (wr32 rdb_rfcrt w (for_range 4 0 (λ i. wr32 (rdb_rfcv i) v) t).1).1.dev
        ≡ cell b t.dev
  tail-keeps b v w t ne ne' =
      wr32-cell_ne ram rdb_rfcrt b w (for_range 4 0 (λ i. wr32 (rdb_rfcv i) v) t).1 ne'
      ∙ for_range_inv (λ (u : Hw D). cell b u.dev ≡ cell b t.dev) (λ i. wr32 (rdb_rfcv i) v) 4 0
          (λ k lo hi u e. wr32-cell_ne ram (rdb_rfcv k) b v u (ne k (omega arith)) ∙ e) t refl

  pub finish-keeps :
      (b : ℕ) (s : Hw D)
      → ((k : ℕ) → k < 8 → rdb_rfcl k ≢ b)
      → ((k : ℕ) → k < 8 → rdb_rfch k ≢ b)
      → ((k : ℕ) → k < 4 → rdb_rfcv k ≢ b)
      → rdb_rfcrt ≢ b
      → cell b (finish s).dev ≡ cell b s.dev
  finish-keeps b s ne_lo ne_hi ne_v ne_rt =
      tail-keeps b _ _ (for_range 8 0 fc_thresholds s).1 ne_v ne_rt
      ∙ for_range_inv (λ (t : Hw D). cell b t.dev ≡ cell b s.dev) fc_thresholds 8 0
          (λ k lo hi t e.
            fc_thresholds-cell_ne ram b k t (ne_lo k (omega arith)) (ne_hi k (omega arith)) ∙ e)
          s refl

  pub finish_thresholds :
      (i p : ℕ) (f : FcInfo) (s : Hw D)
      → i < 8
      → s.mapped ≡ true
      → s.fc ≡ f
      → cell (rdb_pb_sz i) s.dev ≡ p
      → (cell (rdb_rfch i) (finish s).dev ≡ rfch_of f i p)
        × (cell (rdb_rfcl i) (finish s).dev ≡ rfcl_of f i)
  finish_thresholds i p f s below m e size =
      let t = (for_range 8 0 fc_thresholds s).1 in
      let loop = thresholds_loop i p f s below m e size in
      (
        tail-keeps (rdb_rfch i) _ _ t (λ k h e. omega arith) (λ e. omega arith) ∙ loop.0,
        tail-keeps (rdb_rfcl i) _ _ t (λ k h e. omega arith) (λ e. omega arith) ∙ loop.1,
      )
