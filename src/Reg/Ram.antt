-- ===== src/Reg/Ram.antt =====
-- A device whose registers hold what was written to them: the law under which the theorems say
-- what the registers hold after a sequence of writes.
use txgbe.Base.{ℕ, ◌≡◌, ◌≢◌, arith, true}
use txgbe.Hw.{Hw, Bus}
use txgbe.Reg.{rd32, wr32}

pub record Ram {D : Type 0} (bus : Bus D) (cell : ℕ → D → ℕ) : Type 0 where
  pub load : (a : ℕ) (d : D) → (bus.readl a d).0 ≡ cell a d
  pub read_keeps : (a b : ℕ) (d : D) → cell b (bus.readl a d).1 ≡ cell b d
  pub store : (a v : ℕ) (d : D) → cell a (bus.writel a v d) ≡ v
  pub write_keeps : (a b v : ℕ) (d : D) → a ≢ b → cell b (bus.writel a v d) ≡ cell b d

module _ {D : Type 0} ⦃bus : Bus D⦄ {cell : ℕ → D → ℕ} (ram : Ram bus cell) where
  pub rd32-cell : (a b : ℕ) (hw : Hw D) → cell b (rd32 a hw).1.dev ≡ cell b hw.dev
  unfolding rd32
  rd32-cell a b hw = ground (arith, ram.read_keeps a b hw.dev)

  pub rd32_value : (a : ℕ) (hw : Hw D) → hw.mapped ≡ true → (rd32 a hw).0 ≡ cell a hw.dev
  unfolding rd32
  rd32_value a hw m = ground (arith, ram.load a hw.dev)

  pub wr32-cell_self : (a v : ℕ) (hw : Hw D) → hw.mapped ≡ true → cell a (wr32 a v hw).1.dev ≡ v
  unfolding wr32
  wr32-cell_self a v hw m = ground (arith, ram.store a v hw.dev)

  pub wr32-cell_ne : (a b v : ℕ) (hw : Hw D) → a ≢ b → cell b (wr32 a v hw).1.dev ≡ cell b hw.dev
  unfolding wr32
  wr32-cell_ne a b v hw ne = ground (arith, ram.write_keeps a b v hw.dev ne)
