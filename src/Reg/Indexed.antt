-- ===== src/Reg/Indexed.antt =====
-- A device with a table behind a window: the register `idx` selects the entry that the registers
-- `inside` the window show. The other registers hold what was written to them.
use txgbe.Base.{ℕ, ◌≡◌, ◌≢◌, ◌∙◌, sym, ap, arith, Bool, true, false}
use txgbe.Hw.{Hw, Bus}
use txgbe.Reg.{rd32, wr32, wr32m, failed_read_reg}
use txgbe.Reg.Merge.{merged}

pub record Indexed {D : Type 0} (bus : Bus D) (idx : ℕ) (inside : ℕ → Bool) (cell : ℕ → D → ℕ)
    (entry : ℕ → ℕ → D → ℕ) : Type 0 where
  pub outside : inside idx ≡ false
  pub load : (a : ℕ) (d : D) → inside a ≡ false → (bus.readl a d).0 ≡ cell a d
  pub load_entry : (a : ℕ) (d : D) → inside a ≡ true → (bus.readl a d).0 ≡ entry (cell idx d) a d
  pub read_keeps : (a b : ℕ) (d : D) → cell b (bus.readl a d).1 ≡ cell b d
  pub read_keeps_entry : (a i r : ℕ) (d : D) → entry i r (bus.readl a d).1 ≡ entry i r d
  pub store : (a v : ℕ) (d : D) → inside a ≡ false → cell a (bus.writel a v d) ≡ v
  pub store_entry :
      (a v : ℕ) (d : D) → inside a ≡ true → entry (cell idx d) a (bus.writel a v d) ≡ v
  pub write_keeps : (a b v : ℕ) (d : D) → a ≢ b → cell b (bus.writel a v d) ≡ cell b d
  pub write_keeps_reg : (a v i r : ℕ) (d : D) → a ≢ r → entry i r (bus.writel a v d) ≡ entry i r d
  pub write_keeps_entry :
      (a v i r : ℕ) (d : D) → i ≢ cell idx d → entry i r (bus.writel a v d) ≡ entry i r d

module _ {D : Type 0} ⦃bus : Bus D⦄ {idx : ℕ} {inside : ℕ → Bool} {cell : ℕ → D → ℕ}
    {entry : ℕ → ℕ → D → ℕ} (ix : Indexed bus idx inside cell entry) where
  -- The device is there and shows entry `i`.
  abbrev pub Shows : ℕ → Hw D → Type 0
  Shows i hw = (hw.mapped ≡ true) × (cell idx hw.dev ≡ i)

  pub select-Shows : (i : ℕ) (hw : Hw D) → hw.mapped ≡ true → Shows i (wr32 idx i hw).1
  unfolding wr32
  select-Shows i hw m = (ground arith, ground (arith, ix.store idx i hw.dev ix.outside))

  pub wr32-Shows : (a v i : ℕ) (hw : Hw D) → a ≢ idx → Shows i hw → Shows i (wr32 a v hw).1
  unfolding wr32
  wr32-Shows a v i hw ne (m, s) = (ground arith, ground (arith, ix.write_keeps a idx v hw.dev ne))

  pub rd32-Shows : (a i : ℕ) (hw : Hw D) → Shows i hw → Shows i (rd32 a hw).1
  unfolding rd32
  rd32-Shows a i hw (m, s) = (ground arith, ground (arith, ix.read_keeps a idx hw.dev))

  pub rd32-entry : (a i r : ℕ) (hw : Hw D) → entry i r (rd32 a hw).1.dev ≡ entry i r hw.dev
  unfolding rd32
  rd32-entry a i r hw = ground (arith, ix.read_keeps_entry a i r hw.dev)

  pub rd32_shown :
      (r i : ℕ) (hw : Hw D) → inside r ≡ true → Shows i hw → (rd32 r hw).0 ≡ entry i r hw.dev
  unfolding rd32
  rd32_shown r i hw w (m, s) =
      ground (arith, ix.load_entry r hw.dev w, ap (λ (j : ℕ). entry j r hw.dev) s)

  pub wr32-entry_reg :
      (a v i r : ℕ) (hw : Hw D) → a ≢ r → entry i r (wr32 a v hw).1.dev ≡ entry i r hw.dev
  unfolding wr32
  wr32-entry_reg a v i r hw ne = ground (arith, ix.write_keeps_reg a v i r hw.dev ne)

  pub wr32-entry_ne :
      (a v i j r : ℕ) (hw : Hw D)
      → Shows i hw
      → j ≢ i
      → entry j r (wr32 a v hw).1.dev ≡ entry j r hw.dev
  unfolding wr32
  wr32-entry_ne a v i j r hw (m, s) ne =
      ground (arith, ix.write_keeps_entry a v j r hw.dev (λ e. ne (e ∙ s)))

  pub wr32-entry_self :
      (r v i : ℕ) (hw : Hw D) → inside r ≡ true → Shows i hw → entry i r (wr32 r v hw).1.dev ≡ v
  unfolding wr32
  wr32-entry_self r v i hw w (m, s) =
      ap (λ (j : ℕ). entry j r (wr32 r v hw).1.dev) (sym s)
      ∙ ground (arith, ix.store_entry r v hw.dev w)

  -- `wr32m` on the shown entry.
  pub wr32m-entry_self :
      (r mask field i : ℕ) (hw : Hw D)
      → inside r ≡ true
      → Shows i hw
      → entry i r hw.dev ≢ failed_read_reg
      → entry i r (wr32m r mask field hw).1.dev ≡ merged (entry i r hw.dev) mask field
  unfolding wr32m
  wr32m-entry_self r mask field i hw w (m, s) live =
      let d = (bus.readl r hw.dev).1 in
      let read : (bus.readl r hw.dev).0 ≡ entry i r hw.dev =
        ix.load_entry r hw.dev w ∙ ap (λ (j : ℕ). entry j r hw.dev) s in
      let at : cell idx d ≡ i = ix.read_keeps r idx hw.dev ∙ s in
      let v = merged (bus.readl r hw.dev).0 mask field in
      let put : entry i r (bus.writel r v d) ≡ v =
        ap (λ (j : ℕ). entry j r (bus.writel r v d)) (sym at) ∙ ix.store_entry r v d w in
      ground (arith, put, read, ap (λ (x : ℕ). merged x mask field) read)

  pub wr32m-entry_reg :
      (a mask field i r : ℕ) (hw : Hw D)
      → a ≢ r
      → entry i r (wr32m a mask field hw).1.dev ≡ entry i r hw.dev
  unfolding wr32m
  wr32m-entry_reg a mask field i r hw ne =
      let d = (bus.readl a hw.dev).1 in
      let v = merged (bus.readl a hw.dev).0 mask field in
      ground (arith, ix.write_keeps_reg a v i r d ne, ix.read_keeps_entry a i r hw.dev)

  pub wr32m-entry_ne :
      (a mask field i j r : ℕ) (hw : Hw D)
      → Shows i hw
      → j ≢ i
      → entry j r (wr32m a mask field hw).1.dev ≡ entry j r hw.dev
  unfolding wr32m
  wr32m-entry_ne a mask field i j r hw (m, s) ne =
      let d = (bus.readl a hw.dev).1 in
      let v = merged (bus.readl a hw.dev).0 mask field in
      let at : cell idx d ≡ i = ix.read_keeps a idx hw.dev ∙ s in
      ground
        (arith, ix.write_keeps_entry a v j r d (λ e. ne (e ∙ at)), ix.read_keeps_entry a j r hw.dev)

  pub wr32m-Shows :
      (a mask field i : ℕ) (hw : Hw D) → a ≢ idx → Shows i hw → Shows i (wr32m a mask field hw).1
  unfolding wr32m
  wr32m-Shows a mask field i hw ne (m, s) =
      let d = (bus.readl a hw.dev).1 in
      let v = merged (bus.readl a hw.dev).0 mask field in
      (ground arith, ground (arith, ix.write_keeps a idx v d ne, ix.read_keeps a idx hw.dev))

  -- The registers outside the window.
  pub wr32-cell_ne : (a b v : ℕ) (hw : Hw D) → a ≢ b → cell b (wr32 a v hw).1.dev ≡ cell b hw.dev
  unfolding wr32
  wr32-cell_ne a b v hw ne = ground (arith, ix.write_keeps a b v hw.dev ne)

  pub wr32m-cell_ne :
      (a b mask field : ℕ) (hw : Hw D)
      → a ≢ b
      → cell b (wr32m a mask field hw).1.dev ≡ cell b hw.dev
  unfolding wr32m
  wr32m-cell_ne a b mask field hw ne =
      let d = (bus.readl a hw.dev).1 in
      let v = merged (bus.readl a hw.dev).0 mask field in
      ground (arith, ix.write_keeps a b v d ne, ix.read_keeps a b hw.dev)

  pub wr32m-cell_self :
      (a mask field : ℕ) (hw : Hw D)
      → inside a ≡ false
      → hw.mapped ≡ true
      → cell a hw.dev ≢ failed_read_reg
      → cell a (wr32m a mask field hw).1.dev ≡ merged (cell a hw.dev) mask field
  unfolding wr32m
  wr32m-cell_self a mask field hw out m live =
      let d = (bus.readl a hw.dev).1 in
      let read = ix.load a hw.dev out in
      let v = merged (bus.readl a hw.dev).0 mask field in
      ground (arith, ix.store a v d out, read, ap (λ (x : ℕ). merged x mask field) read)
