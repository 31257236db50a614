-- ===== src/Swfw/Steps.antt =====
-- Getting and releasing the semaphore between the drivers, on a device that one driver uses.
use txgbe.Base.{
  ℕ, ◌≡◌, ◌≢◌, ◌⊎◌, inl, inr, ◌∙◌, refl, sym, ap, bit_and, bit_or, nonzero, true, false, ◌==◌,
  arith,
}
use txgbe.Hw.{Hw, Bus}
use txgbe.Reg.{rd32, wr32, wr32m, failed_read_reg}
use txgbe.Reg.Merge.{merged}
use txgbe.Reg.Frame.{Same, rd32-Same, wr32-Same, wr32m-Same}
use txgbe.Swfw.Access.{
  mis_st, mis_st_mng_init_dn, sp_mpw, access_enabled, mng_present, check_mng_access,
}
use txgbe.Swfw.Sync.{mis_swsm, mng_sw_sm, mng_swfw_sync}
use txgbe.Swfw.Device.{
  Sem, calm, rd32_st, rd32-calm, wr32-calm, wr32m-calm, rd32-takes, rd32-keeps, rd32-leaves,
  wr32-stores, wr32-keeps, wr32m-stores, wr32m-keeps, wr32m-leaves,
}

-- A device that is there, whose management is up and open to the driver, with these values of the two
-- semaphore registers and of the register of the resources.
pub record Held {D : Type 0} (cell : ℕ → D → ℕ) (smbi sm sync : ℕ) (hw : Hw D) : Type 0 where
  pub mapped : hw.mapped ≡ true
  pub present : nonzero (bit_and (cell mis_st hw.dev) mis_st_mng_init_dn) ≡ true
  pub open_to : ((hw.revision_id == sp_mpw) ≡ false) ⊎ (access_enabled hw ≡ true)
  pub swsm : cell mis_swsm hw.dev ≡ smbi
  pub sw_sm : cell mng_sw_sm hw.dev ≡ sm
  pub swfw : cell mng_swfw_sync hw.dev ≡ sync

-- The same, whether management is up or not.
pub record Guarded {D : Type 0} (cell : ℕ → D → ℕ) (smbi sm sync : ℕ) (hw : Hw D) : Type 0 where
  pub mapped : hw.mapped ≡ true
  pub open_to : ((hw.revision_id == sp_mpw) ≡ false) ⊎ (access_enabled hw ≡ true)
  pub swsm : cell mis_swsm hw.dev ≡ smbi
  pub sw_sm : cell mng_sw_sm hw.dev ≡ sm
  pub swfw : cell mng_swfw_sync hw.dev ≡ sync

-- Management is up.
abbrev pub IsUp : {D : Type 0} → (ℕ → D → ℕ) → Hw D → Type 0
IsUp cell hw = nonzero (bit_and (cell mis_st hw.dev) mis_st_mng_init_dn) ≡ true

module _ {D : Type 0} {cell : ℕ → D → ℕ} {s m g : ℕ} (hw : Hw D) where
  pub Guarded-Held : Held cell s m g hw → Guarded cell s m g hw
  Guarded-Held h = record {
    mapped = h.mapped;
    open_to = h.open_to;
    swsm = h.swsm;
    sw_sm = h.sw_sm;
    swfw = h.swfw;
  }

  pub Held-Guarded : Guarded cell s m g hw → IsUp cell hw → Held cell s m g hw
  Held-Guarded h up = record {
    mapped = h.mapped;
    present = up;
    open_to = h.open_to;
    swsm = h.swsm;
    sw_sm = h.sw_sm;
    swfw = h.swfw;
  }

module _ {D : Type 0} ⦃bus : Bus D⦄ {cell : ℕ → D → ℕ} (sem : Sem bus cell) where
  -- A step that changes the device alone, and not MIS_ST.
  pub moved :
      {s m g s' m' g' : ℕ} (hw hw' : Hw D)
      → Same hw hw'
      → cell mis_st hw'.dev ≡ cell mis_st hw.dev
      → cell mis_swsm hw'.dev ≡ s'
      → cell mng_sw_sm hw'.dev ≡ m'
      → cell mng_swfw_sync hw'.dev ≡ g'
      → Held cell s m g hw
      → Held cell s' m' g' hw'
  moved hw hw' same st a b c h = record {
    mapped = ap (λ (t : Hw D). t.mapped) same ∙ h.mapped;
    present = ap (λ (x : ℕ). nonzero (bit_and x mis_st_mng_init_dn)) st ∙ h.present;
    open_to = elim (h.open_to) [
      | inl e ↦ inl (ap (λ (t : Hw D). t.revision_id == sp_mpw) same ∙ e)
      | inr e ↦ inr (ap (λ (t : Hw D). access_enabled t) same ∙ e)
    ];
    swsm = a;
    sw_sm = b;
    swfw = c;
  }

  module _ {s m g : ℕ} (hw : Hw D) (h : Held cell s m g hw) where
    pub rd32-Held : (a : ℕ) → calm a ≡ true → a ≢ mis_swsm → Held cell s m g (rd32 a hw).1
    rd32-Held a quiet ne =
        moved hw (rd32 a hw).1 (rd32-Same a hw) (rd32-calm sem hw h.mapped a quiet)
          (rd32-leaves sem hw h.mapped a ne ∙ h.swsm)
          (rd32-keeps sem hw h.mapped a mng_sw_sm refl (λ e. omega arith) ∙ h.sw_sm)
          (rd32-keeps sem hw h.mapped a mng_swfw_sync refl (λ e. omega arith) ∙ h.swfw) h

    pub rd32_swsm-Held : Held cell (bit_or s 1) m g (rd32 mis_swsm hw).1
    rd32_swsm-Held =
        moved hw (rd32 mis_swsm hw).1 (rd32-Same mis_swsm hw)
          (rd32-calm sem hw h.mapped mis_swsm refl)
          (rd32-takes sem hw h.mapped ∙ ap (λ (x : ℕ). bit_or x 1) h.swsm)
          (rd32-keeps sem hw h.mapped mis_swsm mng_sw_sm refl (λ e. omega arith) ∙ h.sw_sm)
          (rd32-keeps sem hw h.mapped mis_swsm mng_swfw_sync refl (λ e. omega arith) ∙ h.swfw) h

    pub wr32_sync-Held : (v : ℕ) → Held cell s m v (wr32 mng_swfw_sync v hw).1
    wr32_sync-Held v =
        moved hw (wr32 mng_swfw_sync v hw).1 (wr32-Same mng_swfw_sync hw v)
          (wr32-calm sem hw h.mapped mng_swfw_sync v refl)
          (wr32-keeps sem hw h.mapped mng_swfw_sync v mis_swsm refl (λ e. omega arith) ∙ h.swsm)
          (wr32-keeps sem hw h.mapped mng_swfw_sync v mng_sw_sm refl (λ e. omega arith) ∙ h.sw_sm)
          (wr32-stores sem hw h.mapped mng_swfw_sync v refl) h

    pub wr32m_sync-Held :
        (mask field : ℕ)
        → g ≢ failed_read_reg
        → Held cell s m (merged g mask field) (wr32m mng_swfw_sync mask field hw).1
    wr32m_sync-Held mask field live =
        moved hw (wr32m mng_swfw_sync mask field hw).1 (wr32m-Same mng_swfw_sync hw mask field)
          (wr32m-calm sem hw h.mapped mng_swfw_sync mask field refl refl)
          (wr32m-leaves sem hw h.mapped mng_swfw_sync mask field (λ e. omega arith) ∙ h.swsm)
          (wr32m-keeps sem hw h.mapped mng_swfw_sync mask field mng_sw_sm refl (λ e. omega arith)
              (λ e. omega arith)
            ∙ h.sw_sm)
          (wr32m-stores sem hw h.mapped mng_swfw_sync mask field refl (λ e. live (sym (h.swfw) ∙ e))
            ∙ ap (λ (x : ℕ). merged x mask field) h.swfw)
          h

    pub wr32m_sm-Held :
        (field : ℕ)
        → m ≢ failed_read_reg
        → Held cell s (merged m 1 field) g (wr32m mng_sw_sm 1 field hw).1
    wr32m_sm-Held field live =
        moved hw (wr32m mng_sw_sm 1 field hw).1 (wr32m-Same mng_sw_sm hw 1 field)
          (wr32m-calm sem hw h.mapped mng_sw_sm 1 field refl refl)
          (wr32m-leaves sem hw h.mapped mng_sw_sm 1 field (λ e. omega arith) ∙ h.swsm)
          (wr32m-stores sem hw h.mapped mng_sw_sm 1 field refl (λ e. live (sym (h.sw_sm) ∙ e))
            ∙ ap (λ (x : ℕ). merged x 1 field) h.sw_sm)
          (wr32m-keeps sem hw h.mapped mng_sw_sm 1 field mng_swfw_sync refl (λ e. omega arith)
              (λ e. omega arith)
            ∙ h.swfw)
          h

    pub wr32m_swsm-Held :
        s ≢ failed_read_reg → Held cell (merged s 1 0) m g (wr32m mis_swsm 1 0 hw).1
    wr32m_swsm-Held live =
        moved hw (wr32m mis_swsm 1 0 hw).1 (wr32m-Same mis_swsm hw 1 0)
          (wr32m-calm sem hw h.mapped mis_swsm 1 0 refl refl)
          (wr32m-stores sem hw h.mapped mis_swsm 1 0 refl (λ e. live (sym (h.swsm) ∙ e))
            ∙ ap (λ (x : ℕ). merged x 1 0) h.swsm)
          (wr32m-keeps sem hw h.mapped mis_swsm 1 0 mng_sw_sm refl (λ e. omega arith)
              (λ e. omega arith)
            ∙ h.sw_sm)
          (wr32m-keeps sem hw h.mapped mis_swsm 1 0 mng_swfw_sync refl (λ e. omega arith)
              (λ e. omega arith)
            ∙ h.swfw)
          h

    -- Management is open, and the test reads MIS_ST alone.
    pub check_mng_access_open : check_mng_access hw ≡ (true, (rd32 mis_st hw).1)
    unfolding check_mng_access mng_present
    check_mng_access_open =
        let p : nonzero (bit_and (rd32 mis_st hw).0 mis_st_mng_init_dn) ≡ true =
          ap (λ (x : ℕ). nonzero (bit_and x mis_st_mng_init_dn)) (rd32_st sem hw h.mapped)
          ∙ h.present in
        elim (h.open_to) [ inl e ↦ ground (arith, p, e) | inr e ↦ ground (arith, p, e) ]
