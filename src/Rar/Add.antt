-- ===== src/Rar/Add.antt =====
-- The loop over the new addresses, src/txgbe_hw.c `txgbe_add_uc_addr`.
use txgbe.Base.{ℕ, ◌<◌, ◌≤◌, ◌≡◌, ◌≢◌, ◌∙◌, ap, [], arith}
use txgbe.Hw.{Hw, Bus, Status}
use txgbe.Rar.Table.{set_rar}
use txgbe.Reg.Merge.{merged}
use txgbe.Reg.Frame.{Same, Same-trans, wr32-Same, wr32m-Same}
use txgbe.Reg.Indexed.{wr32-cell_ne, wr32m-cell_ne}
use txgbe.Rar.Regs.{
  psr_mac_swc_ad_l, psr_mac_swc_ad_h, psr_mac_swc_vm_l, psr_mac_swc_vm_h, psr_mac_swc_idx,
  psr_mac_swc_ad_h_av, rar_low, ad_h_mask,
}
use txgbe.Rar.Entry.{
  RarDevice, Holds, selected, pooled_low, pooled, lowered, written, high_word, set_rar-in_range,
}
use txgbe.Rar.Fill.{Elsewhere}
use txgbe.Rar.Uc.{UcAddr, with_used, with_overflow, add_uc_addr, add_one32}

module _ {D : Type 0} ⦃bus : Bus D⦄ (index pools low high : ℕ) (hw : Hw D) where
  pub written-Same : Same hw (written index pools low high hw)
  written-Same =
      let a = selected index pools low high hw in
      let b = pooled_low index pools low high hw in
      let c = pooled index pools low high hw in
      let d = lowered index pools low high hw in
      Same-trans hw a _ (wr32-Same psr_mac_swc_idx hw index) (
        Same-trans a b _ (wr32-Same psr_mac_swc_vm_l a _) (
          Same-trans b c _ (wr32-Same psr_mac_swc_vm_h b _) (
            Same-trans c d _ (wr32-Same psr_mac_swc_ad_l c low)
              (wr32m-Same psr_mac_swc_ad_h d ad_h_mask high))))

  pub written-cell :
      {cell : ℕ → D → ℕ} {entry : ℕ → ℕ → D → ℕ} (ix : RarDevice bus cell entry) (b : ℕ)
      → Elsewhere ix b
      → cell b (written index pools low high hw).dev ≡ cell b hw.dev
  written-cell ix b (ne, nl, nh, vl, vh) =
      wr32m-cell_ne ix psr_mac_swc_ad_h b ad_h_mask high _ nh
      ∙ wr32-cell_ne ix psr_mac_swc_ad_l b low _ nl
      ∙ wr32-cell_ne ix psr_mac_swc_vm_h b _ _ vh
      ∙ wr32-cell_ne ix psr_mac_swc_vm_l b _ _ vl
      ∙ wr32-cell_ne ix psr_mac_swc_idx b index hw ne

-- The entry that a call with room takes, and the state after it.
module _ {D : Type 0} ⦃bus : Bus D⦄ (a : UcAddr) (hw : Hw D) where
  abbrev pub filled : Hw D
  filled =
      written hw.addr_ctrl.rar_used_count a.vmdq (rar_low a.addr)
        (high_word a.addr psr_mac_swc_ad_h_av) hw

  pub add_uc_addr_room :
      hw.addr_ctrl.rar_used_count < hw.mac.num_rar_entries
      → (add_uc_addr a.addr a.vmdq hw).1
        ≡ with_used (add_one32 hw.addr_ctrl.rar_used_count) (record hw { dev = filled.dev })
  unfolding add_uc_addr
  add_uc_addr_room room =
      let bump : Hw D → Hw D = λ h. with_used (add_one32 h.addr_ctrl.rar_used_count) h in
      let put = set_rar hw.addr_ctrl.rar_used_count a.addr a.vmdq psr_mac_swc_ad_h_av in
      let first : (add_uc_addr a.addr a.vmdq hw).1 ≡ bump (put hw).1 = ground arith in
      first
      ∙ ap (λ (t : Status × Hw D). bump t.1)
          (set_rar-in_range hw.addr_ctrl.rar_used_count a.vmdq psr_mac_swc_ad_h_av a.addr hw room)
      ∙ ap bump (
          written-Same hw.addr_ctrl.rar_used_count a.vmdq (rar_low a.addr)
            (high_word a.addr psr_mac_swc_ad_h_av) hw)

  pub add_uc_addr_full :
      hw.mac.num_rar_entries ≤ hw.addr_ctrl.rar_used_count
      → (add_uc_addr a.addr a.vmdq hw).1
        ≡ with_overflow (add_one32 hw.addr_ctrl.overflow_promisc) hw
  unfolding add_uc_addr
  add_uc_addr_full full = ground arith

-- What the loop over the addresses leaves: the counters, the new entries and the rest.
abbrev pub no_addr : UcAddr
no_addr = record { addr = []; vmdq = 0 }

module _ {D : Type 0} ⦃bus : Bus D⦄ {cell : ℕ → D → ℕ} {entry : ℕ → ℕ → D → ℕ}
    (ix : RarDevice bus cell entry) where
  -- Entry `i` holds the address `a`.
  abbrev pub HasAddr : UcAddr → ℕ → D → D → Type 0
  HasAddr a i before after =
      Holds entry i a.vmdq (rar_low a.addr) (high_word a.addr psr_mac_swc_ad_h_av) before after

  -- Entry `i` is the same on two devices.
  abbrev pub Kept : ℕ → D → D → Type 0
  Kept i before after = (r : ℕ) → psr_mac_swc_idx ≢ r → entry i r after ≡ entry i r before

  pub HasAddr-before :
      (a : UcAddr) (i : ℕ) (d e f : D)
      → entry i psr_mac_swc_ad_h e ≡ entry i psr_mac_swc_ad_h d
      → HasAddr a i e f
      → HasAddr a i d f
  HasAddr-before a i d e f same (vl, vh, l, h) = (
    vl,
    vh,
    l,
    h ∙ ap (λ (x : ℕ). merged x ad_h_mask (high_word a.addr psr_mac_swc_ad_h_av)) same,
  )

  pub HasAddr-after :
      (a : UcAddr) (i : ℕ) (d e f : D) → Kept i e f → HasAddr a i d e → HasAddr a i d f
  HasAddr-after a i d e f kept (vl, vh, l, h) = (
    kept psr_mac_swc_vm_l (λ e. omega arith) ∙ vl,
    kept psr_mac_swc_vm_h (λ e. omega arith) ∙ vh,
    kept psr_mac_swc_ad_l (λ e. omega arith) ∙ l,
    kept psr_mac_swc_ad_h (λ e. omega arith) ∙ h,
  )
