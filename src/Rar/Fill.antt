-- ===== src/Rar/Fill.antt =====
-- The loops of src/txgbe_hw.c `txgbe_update_uc_addr_list`: the old entries are zeroed and the new ones
-- filled.
use txgbe.Base.{
  ℕ, ◌+◌, ◌<◌, ◌≤◌, ◌≡◌, ◌≢◌, ◌∙◌, refl, ap, true, for_range, for_range_inv, for_range_at, ◌⊎◌,
  arith,
}
use txgbe.Hw.{Hw, Bus}
use txgbe.Reg.{wr32}
use txgbe.Reg.Frame.{Same, Same-trans, wr32-Same}
use txgbe.Reg.Indexed.{
  select-Shows, wr32-Shows, wr32-entry_reg, wr32-entry_ne, wr32-entry_self, wr32-cell_ne, Shows,
}
use txgbe.Rar.Regs.{
  psr_mac_swc_ad_l, psr_mac_swc_ad_h, psr_mac_swc_vm_l, psr_mac_swc_vm_h, psr_mac_swc_idx,
}
use txgbe.Rar.Table.{zero_rar}
use txgbe.Rar.Entry.{RarDevice}

module _ {D : Type 0} ⦃bus : Bus D⦄ {cell : ℕ → D → ℕ} {entry : ℕ → ℕ → D → ℕ}
    (ix : RarDevice bus cell entry) where
  -- A register that no write of the table touches.
  abbrev pub Elsewhere : ℕ → Type 0
  Elsewhere b =
      (psr_mac_swc_idx ≢ b)
      × (psr_mac_swc_ad_l ≢ b)
      × (psr_mac_swc_ad_h ≢ b)
      × (psr_mac_swc_vm_l ≢ b)
      × (psr_mac_swc_vm_h ≢ b)

  module _ (i : ℕ) (hw : Hw D) where
    zero_rar-Same : Same hw (zero_rar i hw).1
    unfolding zero_rar
    zero_rar-Same =
        let hw1 = (wr32 psr_mac_swc_idx i hw).1 in
        let hw2 = (wr32 psr_mac_swc_ad_l 0 hw1).1 in
        Same-trans hw hw1 _ (wr32-Same psr_mac_swc_idx hw i) (
          Same-trans hw1 hw2 _ (wr32-Same psr_mac_swc_ad_l hw1 0)
            (wr32-Same psr_mac_swc_ad_h hw2 0))

    zero_rar-cell_ne : (b : ℕ) → Elsewhere b → cell b (zero_rar i hw).1.dev ≡ cell b hw.dev
    unfolding zero_rar
    zero_rar-cell_ne b (ne, nl, nh, _, _) =
        wr32-cell_ne ix psr_mac_swc_ad_h b 0 _ nh
        ∙ wr32-cell_ne ix psr_mac_swc_ad_l b 0 _ nl
        ∙ wr32-cell_ne ix psr_mac_swc_idx b i hw ne

    module _ (mapped : hw.mapped ≡ true) where
      lowered-Shows : Shows ix i (wr32 psr_mac_swc_ad_l 0 (wr32 psr_mac_swc_idx i hw).1).1
      lowered-Shows =
          wr32-Shows ix psr_mac_swc_ad_l 0 i _ (λ e. omega arith) (select-Shows ix i hw mapped)

      zero_rar-low : entry i psr_mac_swc_ad_l (zero_rar i hw).1.dev ≡ 0
      unfolding zero_rar
      zero_rar-low =
          wr32-entry_reg ix psr_mac_swc_ad_h 0 i psr_mac_swc_ad_l _ (λ e. omega arith)
          ∙ wr32-entry_self ix psr_mac_swc_ad_l 0 i _ refl (select-Shows ix i hw mapped)

      zero_rar-high : entry i psr_mac_swc_ad_h (zero_rar i hw).1.dev ≡ 0
      unfolding zero_rar
      zero_rar-high = wr32-entry_self ix psr_mac_swc_ad_h 0 i _ refl lowered-Shows

      zero_rar-entry_ne :
          (j r : ℕ)
          → j ≢ i
          → psr_mac_swc_idx ≢ r
          → entry j r (zero_rar i hw).1.dev ≡ entry j r hw.dev
      unfolding zero_rar
      zero_rar-entry_ne j r ne out =
          wr32-entry_ne ix psr_mac_swc_ad_h 0 i j r _ lowered-Shows ne
          ∙ wr32-entry_ne ix psr_mac_swc_ad_l 0 i j r _ (select-Shows ix i hw mapped) ne
          ∙ wr32-entry_reg ix psr_mac_swc_idx i j r hw out

  -- The loop over the `n` entries from `from` on.
  module _ (from n : ℕ) (hw : Hw D) (mapped : hw.mapped ≡ true) where
    abbrev pub zeroed : Hw D
    zeroed = (for_range n from zero_rar hw).1

    pub zeroed-Same : Same hw zeroed
    zeroed-Same =
        for_range_inv (λ (s : Hw D). Same hw s) zero_rar n from
          (λ k lo hi s p. Same-trans hw s _ p (zero_rar-Same k s)) hw refl

    stays : (s : Hw D) → Same hw s → s.mapped ≡ true
    stays s p = ap (λ (t : Hw D). t.mapped) p ∙ mapped

    pub zeroed-cell : (b : ℕ) → Elsewhere b → cell b zeroed.dev ≡ cell b hw.dev
    zeroed-cell b out =
        for_range_inv (λ (s : Hw D). cell b s.dev ≡ cell b hw.dev) zero_rar n from
          (λ k lo hi s p. zero_rar-cell_ne k s b out ∙ p) hw refl

    pub zeroed-others :
        (j r : ℕ)
        → (j < from) ⊎ (from + n ≤ j)
        → psr_mac_swc_idx ≢ r
        → entry j r zeroed.dev ≡ entry j r hw.dev
    zeroed-others j r away out =
        (for_range_inv (λ (s : Hw D). Same hw s × (entry j r s.dev ≡ entry j r hw.dev)) zero_rar n
          from
          (λ k lo hi s (p, e). (
            Same-trans hw s _ p (zero_rar-Same k s),
            zero_rar-entry_ne k s (stays s p) j r (λ q. ground arith) out ∙ e,
          ))
          hw (refl, refl)).1

    pub zeroed-zero :
        (j : ℕ)
        → from ≤ j
        → j < from + n
        → (entry j psr_mac_swc_ad_l zeroed.dev ≡ 0) × (entry j psr_mac_swc_ad_h zeroed.dev ≡ 0)
    zeroed-zero j lo hi =
        for_range_at (λ (s : Hw D). Same hw s)
          (λ (s : Hw D).
            (entry j psr_mac_swc_ad_l s.dev ≡ 0) × (entry j psr_mac_swc_ad_h s.dev ≡ 0))
          zero_rar n from j lo hi (λ k a b s p. Same-trans hw s _ p (zero_rar-Same k s))
          (λ s p. (zero_rar-low j s (stays s p), zero_rar-high j s (stays s p)))
          (λ k a b s p (l, h). (
            zero_rar-entry_ne k s (stays s p) j psr_mac_swc_ad_l (λ q. omega arith)
                  (λ q. omega arith)
                ∙ l,
            zero_rar-entry_ne k s (stays s p) j psr_mac_swc_ad_h (λ q. omega arith)
                  (λ q. omega arith)
                ∙ h,
          ))
          hw refl
