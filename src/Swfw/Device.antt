-- ===== src/Swfw/Device.antt =====
-- A device with a semaphore that a read takes: reading MIS_SWSM gives the SMBI bit and sets it. The
-- other registers that guard a resource hold what was written to them; the registers beyond may hold
-- anything, and an access to them may take management down or bring it up, since the firmware acts.
use txgbe.Base.{ℕ, ◌≡◌, ◌≢◌, refl, ap, arith, Bool, true, ◌==◌, ◌||◌, bit_or}
use txgbe.Hw.{Hw, Bus}
use txgbe.Reg.{rd32, wr32, wr32m, failed_read_reg}
use txgbe.Reg.Merge.{merged}
use txgbe.Fdir.Filter.{mis_pwr}
use txgbe.Swfw.Access.{mis_st}
use txgbe.Swfw.Sync.{mis_swsm, mis_swsm_smbi, mng_sw_sm, mng_swfw_sync}

-- The registers that guard a resource.
abbrev pub guards : ℕ → Bool
guards a = (a == mis_swsm) || (a == mng_sw_sm) || (a == mng_swfw_sync)

-- The registers whose reads leave management as it is.
abbrev pub calm : ℕ → Bool
calm a = guards a || (a == mis_st) || (a == mis_pwr)

pub record Sem {D : Type 0} (bus : Bus D) (cell : ℕ → D → ℕ) : Type 0 where
  pub load : (a : ℕ) (d : D) → guards a ≡ true → (bus.readl a d).0 ≡ cell a d
  pub load_st : (d : D) → (bus.readl mis_st d).0 ≡ cell mis_st d
  pub read_takes :
      (d : D) → cell mis_swsm (bus.readl mis_swsm d).1 ≡ bit_or (cell mis_swsm d) mis_swsm_smbi
  pub read_keeps :
      (a b : ℕ) (d : D) → guards b ≡ true → mis_swsm ≢ b → cell b (bus.readl a d).1 ≡ cell b d
  pub read_leaves :
      (a : ℕ) (d : D) → a ≢ mis_swsm → cell mis_swsm (bus.readl a d).1 ≡ cell mis_swsm d
  pub read_calm : (a : ℕ) (d : D) → calm a ≡ true → cell mis_st (bus.readl a d).1 ≡ cell mis_st d
  pub store : (a v : ℕ) (d : D) → guards a ≡ true → cell a (bus.writel a v d) ≡ v
  pub write_keeps :
      (a b v : ℕ) (d : D) → guards b ≡ true → a ≢ b → cell b (bus.writel a v d) ≡ cell b d
  pub write_calm :
      (a v : ℕ) (d : D) → guards a ≡ true → cell mis_st (bus.writel a v d) ≡ cell mis_st d

module _ {D : Type 0} ⦃bus : Bus D⦄ {cell : ℕ → D → ℕ} (sem : Sem bus cell) (hw : Hw D)
    (mapped : hw.mapped ≡ true) where
  pub rd32_value : (a : ℕ) → guards a ≡ true → (rd32 a hw).0 ≡ cell a hw.dev
  unfolding rd32
  rd32_value a g = ground (arith, sem.load a hw.dev g)

  pub rd32_st : (rd32 mis_st hw).0 ≡ cell mis_st hw.dev
  unfolding rd32
  rd32_st = ground (arith, sem.load_st hw.dev)

  pub rd32-takes : cell mis_swsm (rd32 mis_swsm hw).1.dev ≡ bit_or (cell mis_swsm hw.dev) 1
  unfolding rd32
  rd32-takes = ground (arith, sem.read_takes hw.dev)

  pub rd32-keeps :
      (a b : ℕ) → guards b ≡ true → mis_swsm ≢ b → cell b (rd32 a hw).1.dev ≡ cell b hw.dev
  unfolding rd32
  rd32-keeps a b g ne = ground (arith, sem.read_keeps a b hw.dev g ne)

  pub rd32-calm : (a : ℕ) → calm a ≡ true → cell mis_st (rd32 a hw).1.dev ≡ cell mis_st hw.dev
  unfolding rd32
  rd32-calm a c = ground (arith, sem.read_calm a hw.dev c)

  pub rd32-leaves : (a : ℕ) → a ≢ mis_swsm → cell mis_swsm (rd32 a hw).1.dev ≡ cell mis_swsm hw.dev
  unfolding rd32
  rd32-leaves a ne = ground (arith, sem.read_leaves a hw.dev ne)

  pub wr32-stores : (a v : ℕ) → guards a ≡ true → cell a (wr32 a v hw).1.dev ≡ v
  unfolding wr32
  wr32-stores a v g = ground (arith, sem.store a v hw.dev g)

  pub wr32-keeps :
      (a v b : ℕ) → guards b ≡ true → a ≢ b → cell b (wr32 a v hw).1.dev ≡ cell b hw.dev
  unfolding wr32
  wr32-keeps a v b g ne = ground (arith, sem.write_keeps a b v hw.dev g ne)

  pub wr32-calm : (a v : ℕ) → guards a ≡ true → cell mis_st (wr32 a v hw).1.dev ≡ cell mis_st hw.dev
  unfolding wr32
  wr32-calm a v g = ground (arith, sem.write_calm a v hw.dev g)

  pub wr32m-stores :
      (a mask field : ℕ)
      → guards a ≡ true
      → cell a hw.dev ≢ failed_read_reg
      → cell a (wr32m a mask field hw).1.dev ≡ merged (cell a hw.dev) mask field
  unfolding wr32m
  wr32m-stores a mask field g live =
      let d = (bus.readl a hw.dev).1 in
      let read = sem.load a hw.dev g in
      let v = merged (bus.readl a hw.dev).0 mask field in
      ground (arith, sem.store a v d g, read, ap (λ (x : ℕ). merged x mask field) read)

  pub wr32m-keeps :
      (a mask field b : ℕ)
      → guards b ≡ true
      → a ≢ b
      → mis_swsm ≢ b
      → cell b (wr32m a mask field hw).1.dev ≡ cell b hw.dev
  unfolding wr32m
  wr32m-keeps a mask field b g ne out =
      let d = (bus.readl a hw.dev).1 in
      let v = merged (bus.readl a hw.dev).0 mask field in
      ground (arith, sem.write_keeps a b v d g ne, sem.read_keeps a b hw.dev g out)

  pub wr32m-calm :
      (a mask field : ℕ)
      → guards a ≡ true
      → calm a ≡ true
      → cell mis_st (wr32m a mask field hw).1.dev ≡ cell mis_st hw.dev
  unfolding wr32m
  wr32m-calm a mask field g c =
      let d = (bus.readl a hw.dev).1 in
      let v = merged (bus.readl a hw.dev).0 mask field in
      ground (arith, sem.write_calm a v d g, sem.read_calm a hw.dev c)

  pub wr32m-leaves :
      (a mask field : ℕ)
      → a ≢ mis_swsm
      → cell mis_swsm (wr32m a mask field hw).1.dev ≡ cell mis_swsm hw.dev
  unfolding wr32m
  wr32m-leaves a mask field ne =
      let d = (bus.readl a hw.dev).1 in
      let v = merged (bus.readl a hw.dev).0 mask field in
      ground (arith, sem.write_keeps a mis_swsm v d refl ne, sem.read_leaves a hw.dev ne)
