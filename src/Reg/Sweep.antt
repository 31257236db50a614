-- ===== src/Reg/Sweep.antt =====
-- A loop that writes a row of registers.
use txgbe.Base.{ℕ, ◌<◌, ◌≡◌, ◌≢◌, ◌∙◌, refl, true, for_range, for_range_inv, for_range_at, arith}
use txgbe.Hw.{Hw, Bus}
use txgbe.Reg.{wr32}
use txgbe.Reg.Frame.{wr32-mapped}
use txgbe.Reg.Ram.{Ram, wr32-cell_self, wr32-cell_ne}

module _ {D : Type 0} ⦃bus : Bus D⦄ (addr val : ℕ → ℕ) (n : ℕ) where
  abbrev pub sweep : Hw D → Hw D
  sweep hw = (for_range n 0 (λ k. wr32 (addr k) (val k)) hw).1

  pub sweep-mapped : (hw : Hw D) → hw.mapped ≡ true → (sweep hw).mapped ≡ true
  sweep-mapped hw m =
      for_range_inv (λ (s : Hw D). s.mapped ≡ true) (λ k. wr32 (addr k) (val k)) n 0
        (λ k lo hi s e. wr32-mapped (addr k) (val k) s ∙ e) hw m

  module _ {cell : ℕ → D → ℕ} (ram : Ram bus cell) where
    pub sweep-keeps :
        (b : ℕ) (hw : Hw D) → ((k : ℕ) → k < n → addr k ≢ b) → cell b (sweep hw).dev ≡ cell b hw.dev
    sweep-keeps b hw ne =
        for_range_inv (λ (s : Hw D). cell b s.dev ≡ cell b hw.dev) (λ k. wr32 (addr k) (val k)) n 0
          (λ k lo hi s e. wr32-cell_ne ram (addr k) b (val k) s (ne k (omega arith)) ∙ e) hw refl

    pub sweep_value :
        (j : ℕ) (hw : Hw D)
        → hw.mapped ≡ true
        → j < n
        → ((k : ℕ) → j < k → addr k ≢ addr j)
        → cell (addr j) (sweep hw).dev ≡ val j
    sweep_value j hw m below ne =
        for_range_at (λ (s : Hw D). s.mapped ≡ true) (λ (s : Hw D). cell (addr j) s.dev ≡ val j)
          (λ k. wr32 (addr k) (val k)) n 0 j (omega arith) (omega arith)
          (λ k lo hi s e. wr32-mapped (addr k) (val k) s ∙ e)
          (λ s e. wr32-cell_self ram (addr j) (val j) s e)
          (λ k lo hi s _ e. wr32-cell_ne ram (addr k) (addr j) (val k) s (ne k lo) ∙ e) hw m
