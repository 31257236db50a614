-- ===== src/Rar/Entry.antt =====
-- What `txgbe_set_rar` and `txgbe_clear_rar` leave in the receive address table.
use txgbe.Base.{
  ℕ, ◌<◌, ◌/◌, ◌^◌, ◌≡◌, ◌≢◌, ◌∙◌, refl, sym, ap, ◌==◌, ◌||◌, Bool, true, if◌then◌else◌, bit_and,
  bit_or, nonzero, List, arith,
}
use mathlib.Core.Path.{subst}
use txgbe.Hw.{Hw, Bus, Status, success}
use txgbe.Reg.{wr32, wr32m, failed_read_reg}
use txgbe.Reg.Merge.{merged}
use txgbe.Reg.Indexed.{
  Indexed, Shows, select-Shows, wr32-Shows, wr32m-Shows, wr32-entry_reg, wr32-entry_ne,
  wr32-entry_self, wr32m-entry_self, wr32m-entry_reg, wr32m-entry_ne,
}
use txgbe.Rar.Regs.{
  psr_mac_swc_ad_l, psr_mac_swc_ad_h, psr_mac_swc_vm_l, psr_mac_swc_vm_h, psr_mac_swc_idx,
  psr_mac_swc_ad_h_av, ad_h_mask, rar_low, rar_high,
}
use txgbe.Rar.Table.{write_rar, set_rar}

-- The registers of the window.
abbrev pub swc : ℕ → Bool
swc r =
    (r == psr_mac_swc_ad_l)
    || (r == psr_mac_swc_ad_h)
    || (r == psr_mac_swc_vm_l)
    || (r == psr_mac_swc_vm_h)

abbrev pub RarDevice : {D : Type 0} → Bus D → (ℕ → D → ℕ) → (ℕ → ℕ → D → ℕ) → Type 0
RarDevice bus cell entry = Indexed bus psr_mac_swc_idx swc cell entry

-- Entry `index` holds the pools and the address words, over what its high word was.
abbrev pub Holds : {D : Type 0} → (ℕ → ℕ → D → ℕ) → ℕ → ℕ → ℕ → ℕ → D → D → Type 0
Holds entry index pools low high before after =
    (entry index psr_mac_swc_vm_l after ≡ bit_and pools 0xffffffff)
    × (entry index psr_mac_swc_vm_h after ≡ pools / 2 ^ 32)
    × (entry index psr_mac_swc_ad_l after ≡ low)
    × (entry index psr_mac_swc_ad_h after
        ≡ merged (entry index psr_mac_swc_ad_h before) ad_h_mask high)

-- The states of the hardware between the writes of an entry.
module _ {D : Type 0} ⦃bus : Bus D⦄ (index pools low high : ℕ) (hw : Hw D) where
  abbrev pub selected : Hw D
  selected = (wr32 psr_mac_swc_idx index hw).1

  abbrev pub pooled_low : Hw D
  pooled_low = (wr32 psr_mac_swc_vm_l (bit_and pools 0xffffffff) selected).1

  abbrev pub pooled : Hw D
  pooled = (wr32 psr_mac_swc_vm_h (pools / 2 ^ 32) pooled_low).1

  abbrev pub lowered : Hw D
  lowered = (wr32 psr_mac_swc_ad_l low pooled).1

  abbrev pub written : Hw D
  written = (wr32m psr_mac_swc_ad_h ad_h_mask high lowered).1

module _ {D : Type 0} ⦃bus : Bus D⦄ {cell : ℕ → D → ℕ} {entry : ℕ → ℕ → D → ℕ}
    (ix : RarDevice bus cell entry) (index pools low high : ℕ) (hw : Hw D)
    (mapped : hw.mapped ≡ true) where
  pooled_low-Shows : Shows ix index (pooled_low index pools low high hw)
  pooled_low-Shows =
      wr32-Shows ix psr_mac_swc_vm_l _ index _ (λ e. omega arith) (select-Shows ix index hw mapped)

  pooled-Shows : Shows ix index (pooled index pools low high hw)
  pooled-Shows = wr32-Shows ix psr_mac_swc_vm_h _ index _ (λ e. omega arith) pooled_low-Shows

  lowered-Shows : Shows ix index (lowered index pools low high hw)
  lowered-Shows = wr32-Shows ix psr_mac_swc_ad_l low index _ (λ e. omega arith) pooled-Shows

  pub written-Shows : Shows ix index (written index pools low high hw)
  written-Shows =
      wr32m-Shows ix psr_mac_swc_ad_h ad_h_mask high index _ (λ e. omega arith) lowered-Shows

  -- The other entries stay.
  pub written_others :
      (j r : ℕ)
      → j ≢ index
      → psr_mac_swc_idx ≢ r
      → entry j r (written index pools low high hw).dev ≡ entry j r hw.dev
  written_others j r ne out =
      wr32m-entry_ne ix psr_mac_swc_ad_h ad_h_mask high index j r _ lowered-Shows ne
      ∙ wr32-entry_ne ix psr_mac_swc_ad_l low index j r _ pooled-Shows ne
      ∙ wr32-entry_ne ix psr_mac_swc_vm_h _ index j r _ pooled_low-Shows ne
      ∙ wr32-entry_ne ix psr_mac_swc_vm_l _ index j r _ (select-Shows ix index hw mapped) ne
      ∙ wr32-entry_reg ix psr_mac_swc_idx index j r hw out

  high_before :
      entry index psr_mac_swc_ad_h (lowered index pools low high hw).dev
      ≡ entry index psr_mac_swc_ad_h hw.dev
  high_before =
      wr32-entry_reg ix psr_mac_swc_ad_l low index psr_mac_swc_ad_h _ (λ e. omega arith)
      ∙ wr32-entry_reg ix psr_mac_swc_vm_h _ index psr_mac_swc_ad_h _ (λ e. omega arith)
      ∙ wr32-entry_reg ix psr_mac_swc_vm_l _ index psr_mac_swc_ad_h _ (λ e. omega arith)
      ∙ wr32-entry_reg ix psr_mac_swc_idx index index psr_mac_swc_ad_h hw (λ e. omega arith)

  pub written-Holds :
      entry index psr_mac_swc_ad_h hw.dev ≢ failed_read_reg
      → Holds entry index pools low high hw.dev (written index pools low high hw).dev
  written-Holds live = (
    wr32m-entry_reg ix psr_mac_swc_ad_h ad_h_mask high index psr_mac_swc_vm_l _ (λ e. omega arith)
        ∙ wr32-entry_reg ix psr_mac_swc_ad_l low index psr_mac_swc_vm_l _ (λ e. omega arith)
        ∙ wr32-entry_reg ix psr_mac_swc_vm_h _ index psr_mac_swc_vm_l _ (λ e. omega arith)
        ∙ wr32-entry_self ix psr_mac_swc_vm_l _ index _ refl (select-Shows ix index hw mapped),
    wr32m-entry_reg ix psr_mac_swc_ad_h ad_h_mask high index psr_mac_swc_vm_h _ (λ e. omega arith)
        ∙ wr32-entry_reg ix psr_mac_swc_ad_l low index psr_mac_swc_vm_h _ (λ e. omega arith)
        ∙ wr32-entry_self ix psr_mac_swc_vm_h _ index _ refl pooled_low-Shows,
    wr32m-entry_reg ix psr_mac_swc_ad_h ad_h_mask high index psr_mac_swc_ad_l _ (λ e. omega arith)
        ∙ wr32-entry_self ix psr_mac_swc_ad_l low index _ refl pooled-Shows,
    wr32m-entry_self ix psr_mac_swc_ad_h ad_h_mask high index _ refl lowered-Shows
          (λ e. live (sym high_before ∙ e))
        ∙ ap (λ (x : ℕ). merged x ad_h_mask high) high_before,
  )

-- The high word that `txgbe_set_rar` asks for.
abbrev pub high_word : List ℕ → ℕ → ℕ
high_word addr enable_addr =
    if nonzero enable_addr then bit_or (rar_high addr) psr_mac_swc_ad_h_av else rar_high addr

module _ {D : Type 0} ⦃bus : Bus D⦄ where
  -- An index in range is written.
  pub set_rar-in_range :
      (index pools enable_addr : ℕ) (addr : List ℕ) (hw : Hw D)
      → index < hw.mac.num_rar_entries
      → set_rar index addr pools enable_addr hw
        ≡ (success, written index pools (rar_low addr) (high_word addr enable_addr) hw)
  unfolding set_rar write_rar
  set_rar-in_range index pools enable_addr addr hw below = ground arith

-- The entry holds its new words, and no register of another entry has changed.
abbrev pub OnlyHolds : {D : Type 0} → (ℕ → ℕ → D → ℕ) → ℕ → ℕ → ℕ → ℕ → D → D → Type 0
OnlyHolds entry index pools low high before after =
    Holds entry index pools low high before after
    × ((j r : ℕ) → j ≢ index → psr_mac_swc_idx ≢ r → entry j r after ≡ entry j r before)

module _ {D : Type 0} ⦃bus : Bus D⦄ {cell : ℕ → D → ℕ} {entry : ℕ → ℕ → D → ℕ}
    (ix : RarDevice bus cell entry) where
  -- On a mapped device with the receive address window, whose entry `index` does not read as all
  -- ones, `txgbe_set_rar` of an index in range succeeds; the entry then holds the two halves of the
  -- pools, the last four bytes of the address and, in the fields of its high word that an address
  -- has, the first two bytes and the valid bit that was asked for; no register of another entry
  -- changes.
  pub set_rar_lem :
      (index pools enable_addr : ℕ) (addr : List ℕ) (hw : Hw D)
      → hw.mapped ≡ true
      → index < hw.mac.num_rar_entries
      → entry index psr_mac_swc_ad_h hw.dev ≢ failed_read_reg
      → let after = set_rar index addr pools enable_addr hw in
        (after.0 ≡ success)
        × OnlyHolds entry index pools (rar_low addr) (high_word addr enable_addr) hw.dev after.1.dev
  set_rar_lem index pools enable_addr addr hw mapped below live =
      let high = high_word addr enable_addr in
      subst
        (λ (t : Status × Hw D).
          (t.0 ≡ success) × OnlyHolds entry index pools (rar_low addr) high hw.dev t.1.dev)
        (sym (set_rar-in_range index pools enable_addr addr hw below))
        (
          refl,
          (
            written-Holds ix index pools (rar_low addr) high hw mapped live,
            written_others ix index pools (rar_low addr) high hw mapped,
          ),
        )
