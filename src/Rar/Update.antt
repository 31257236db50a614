-- ===== src/Rar/Update.antt =====
-- The receive address table after src/txgbe_hw.c `txgbe_update_uc_addr_list`.
use txgbe.Base.{
  ℕ, ◌+◌, ◌-◌, ◌<◌, ◌≤◌, ◌^◌, ◌≡◌, ◌≢◌, ◌∙◌, sym, ap, true, ltb, Bool-cases, List, length,
  for_range, for_range_shift, ◌⊎◌, inl, inr, arith,
}
use txgbe.Hw.{Hw, Bus, Status, success}
use txgbe.Reg.Frame.{Same, wr32m-Same}
use txgbe.Reg.Indexed.{wr32m-entry_reg}
use txgbe.Mta.Table.{psr_ctl}
use txgbe.Rar.Regs.{psr_mac_swc_ad_h, psr_mac_swc_ad_l}
use txgbe.Rar.Table.{zero_rar}
use txgbe.Rar.Entry.{RarDevice}
use txgbe.Rar.Fill.{Elsewhere, zeroed, zeroed-Same, zeroed-cell, zeroed-others, zeroed-zero}
use txgbe.Rar.Uc.{
  UcAddr, with_used, with_overflow, add_all, sub32, drop_old, psr_ctl_upe, update_promisc,
  update_uc_addr_list,
}
use txgbe.Rar.Add.{Kept}
use txgbe.Rar.Loop.{Filled, Live, add_all-Filled, counted}

module _ {D : Type 0} ⦃bus : Bus D⦄ (old : ℕ) (hw : Hw D) where
  pub update_promisc-Same : Same hw (update_promisc old hw).1
  unfolding update_promisc
  update_promisc-Same =
      ground
        (arith, wr32m-Same psr_ctl hw psr_ctl_upe psr_ctl_upe, wr32m-Same psr_ctl hw psr_ctl_upe 0)

  pub update_promisc-Kept :
      {cell : ℕ → D → ℕ} {entry : ℕ → ℕ → D → ℕ} (ix : RarDevice bus cell entry) (i r : ℕ)
      → psr_ctl ≢ r
      → entry i r (update_promisc old hw).1.dev ≡ entry i r hw.dev
  unfolding update_promisc
  update_promisc-Kept ix i r ne = ground (
    arith,
    wr32m-entry_reg ix psr_ctl psr_ctl_upe psr_ctl_upe i r hw ne,
    wr32m-entry_reg ix psr_ctl psr_ctl_upe 0 i r hw ne,
  )

module _ {D : Type 0} ⦃bus : Bus D⦄ {cell : ℕ → D → ℕ} {entry : ℕ → ℕ → D → ℕ}
    (ix : RarDevice bus cell entry) (hw : Hw D) (mapped : hw.mapped ≡ true)
    (used : 1 ≤ hw.addr_ctrl.rar_used_count) (small : hw.addr_ctrl.rar_used_count < 2 ^ 32) where
  abbrev pub dropped : Hw D
  dropped = zeroed ix 1 (hw.addr_ctrl.rar_used_count - 1) (with_overflow 0 (with_used 1 hw)) mapped

  pub drop_old-dropped : (drop_old hw).1 ≡ dropped
  unfolding drop_old
  drop_old-dropped =
      let u = hw.addr_ctrl.rar_used_count in
      let e1 : sub32 u 1 ≡ u - 1 = omega arith in
      let e2 : sub32 u (sub32 u 1) ≡ 1 = omega arith in
      (λ i. (for_range (e1 i) 0 (λ k. zero_rar (1 + k)) (with_overflow 0 (with_used (e2 i) hw))).1)
      ∙ ap (λ (t : Unit {0} × Hw D). t.1)
          (for_range_shift 1 (u - 1) 0 zero_rar (with_overflow 0 (with_used 1 hw)))

  -- The structure after the old entries are dropped.
  abbrev pub fresh : Hw D
  fresh = counted ix 1 0 dropped.dev hw

  pub drop_old-fresh : (drop_old hw).1 ≡ fresh
  drop_old-fresh =
      drop_old-dropped
      ∙ zeroed-Same ix 1 (hw.addr_ctrl.rar_used_count - 1) (with_overflow 0 (with_used 1 hw)) mapped

  pub fresh-zero :
      (i : ℕ)
      → 1 ≤ i
      → i < hw.addr_ctrl.rar_used_count
      → (entry i psr_mac_swc_ad_l fresh.dev ≡ 0) × (entry i psr_mac_swc_ad_h fresh.dev ≡ 0)
  fresh-zero i lo hi =
      zeroed-zero ix 1 (hw.addr_ctrl.rar_used_count - 1) (with_overflow 0 (with_used 1 hw)) mapped i
        lo (omega arith)

  pub fresh-Kept :
      (i : ℕ) → (i < 1) ⊎ (hw.addr_ctrl.rar_used_count ≤ i) → Kept ix i hw.dev fresh.dev
  fresh-Kept i far r out =
      let away : (i < 1) ⊎ (1 + (hw.addr_ctrl.rar_used_count - 1) ≤ i) = elim far [
        | inl lo ↦ inl lo
        | inr hi ↦ inr (omega arith)
      ] in
      zeroed-others ix 1 (hw.addr_ctrl.rar_used_count - 1) (with_overflow 0 (with_used 1 hw)) mapped
        i r away out

  pub fresh-cell : (b : ℕ) → Elsewhere ix b → cell b fresh.dev ≡ cell b hw.dev
  fresh-cell =
      zeroed-cell ix 1 (hw.addr_ctrl.rar_used_count - 1) (with_overflow 0 (with_used 1 hw)) mapped

  fresh-Live : Live ix 1 hw → Live ix 1 fresh
  fresh-Live live i lo hi q = elim (Bool-cases (ltb i hw.addr_ctrl.rar_used_count)) [
    | inl below ↦
        let z : entry i psr_mac_swc_ad_h fresh.dev ≡ 0 = (fresh-zero i lo (ground arith)).1 in
        omega (arith, z, q)
    | inr above ↦
        live i lo hi
          (sym (fresh-Kept i (inr (ground arith)) psr_mac_swc_ad_h (λ e. omega arith)) ∙ q)
  ]

  module _ (addr_list : List UcAddr) (live : Live ix 1 hw)
      (fits : length addr_list + 1 < 2 ^ 32) where
    abbrev pub refilled : Hw D
    refilled = (add_all addr_list fresh).1

    pub refilled-Filled : Filled ix addr_list fresh refilled
    refilled-Filled =
        add_all-Filled ix addr_list fresh mapped (omega arith) (omega arith) (fresh-Live live)

    pub update_uc_addr_list_value :
        update_uc_addr_list addr_list hw
        ≡ (success, (update_promisc hw.addr_ctrl.overflow_promisc refilled).1)
    unfolding update_uc_addr_list
    update_uc_addr_list_value =
        let rest : Hw D → Status × Hw D = λ h.
          (success, (update_promisc hw.addr_ctrl.overflow_promisc (add_all addr_list h).1).1) in
        ap rest drop_old-fresh
