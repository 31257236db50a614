-- ===== src/Vlan/Clear.antt =====
-- The empty VLAN filter table, src/txgbe_hw.c: `txgbe_clear_vfta`.
use txgbe.Base.{
  ℕ, ◌%◌, ◌/◌, ◌≤◌, ◌<◌, ◌≡◌, ◌≢◌, ◌∙◌, ap, refl, sym, true, bit-zero, bit, length, get_or, set,
  get_or-set_self, get_or-set_ne, length-set, for_range, for_range_inv, for_range_at, ◌>>◌, St,
  arith,
}
use txgbe.Hw.{Hw, Bus, MacInfo, success}
use txgbe.Reg.{wr32}
use txgbe.Reg.Frame.{wr32-mapped, wr32-mac}
use txgbe.Reg.Ram.{Ram, wr32-cell_self, wr32-cell_ne}
use txgbe.Vlan.Filter.{
  psr_vlan_tbl, psr_vlan_swc, psr_vlan_swc_vm_l, psr_vlan_swc_vm_h, psr_vlan_swc_idx, set_shadow,
  clear_vfta,
}
use txgbe.Vlan.Table.{IsShadowed, vlan_bit}

module _ {D : Type 0} ⦃bus : Bus D⦄ {cell : ℕ → D → ℕ} (ram : Ram bus cell) where
  -- The body of the first loop.
  abbrev clear_word : ℕ → St (Hw D) (Unit {0})
  clear_word k = wr32 (psr_vlan_tbl k) 0 >> set_shadow k 0

  -- Word `j` is clear in the table and in the shadow.
  abbrev IsClear : ℕ → Hw D → Type 0
  IsClear j s = (cell (psr_vlan_tbl j) s.dev ≡ 0) × (get_or s.mac.vft_shadow j 0 ≡ 0)

  abbrev IsReady : Hw D → Type 0
  IsReady s = (s.mapped ≡ true) × (length s.mac.vft_shadow ≡ 128)

  clear_word-IsReady : (k : ℕ) (s : Hw D) → IsReady s → IsReady (clear_word k s).1
  clear_word-IsReady k s (m, len) = (
    wr32-mapped (psr_vlan_tbl k) 0 s ∙ m,
    ap (λ (n : MacInfo). length (set n.vft_shadow k 0)) (wr32-mac (psr_vlan_tbl k) 0 s)
        ∙ length-set s.mac.vft_shadow k 0
        ∙ len,
  )

  clear_word-reach : (j : ℕ) (s : Hw D) → j < 128 → IsReady s → IsClear j (clear_word j s).1
  clear_word-reach j s below (m, len) = (
    wr32-cell_self ram (psr_vlan_tbl j) 0 s m,
    ap (λ (n : MacInfo). get_or (set n.vft_shadow j 0) j 0) (wr32-mac (psr_vlan_tbl j) 0 s)
        ∙ get_or-set_self s.mac.vft_shadow j 0 0 (omega (arith, len)),
  )

  clear_word-stay : (j k : ℕ) (s : Hw D) → k ≢ j → IsClear j s → IsClear j (clear_word k s).1
  clear_word-stay j k s ne (a, b) = (
    wr32-cell_ne ram (psr_vlan_tbl k) (psr_vlan_tbl j) 0 s (λ e. ne (omega arith)) ∙ a,
    ap (λ (n : MacInfo). get_or (set n.vft_shadow k 0) j 0) (wr32-mac (psr_vlan_tbl k) 0 s)
        ∙ get_or-set_ne s.mac.vft_shadow k j 0 0 ne
        ∙ b,
  )

  -- The body of the second loop, which clears an entry of the pool filter.
  abbrev clear_entry : ℕ → St (Hw D) (Unit {0})
  clear_entry k =
      wr32 psr_vlan_swc_idx k
      >> wr32 psr_vlan_swc 0
      >> wr32 psr_vlan_swc_vm_l 0
      >> wr32 psr_vlan_swc_vm_h 0

  wr32-IsReady : (a v : ℕ) (s : Hw D) → IsReady s → IsReady (wr32 a v s).1
  wr32-IsReady a v s (m, len) =
      (wr32-mapped a v s ∙ m, ap (λ (n : MacInfo). length n.vft_shadow) (wr32-mac a v s) ∙ len)

  wr32-IsClear :
      (j a v : ℕ) (s : Hw D) → a ≢ psr_vlan_tbl j → IsClear j s → IsClear j (wr32 a v s).1
  wr32-IsClear j a v s ne (x, y) = (
    wr32-cell_ne ram a (psr_vlan_tbl j) v s ne ∙ x,
    ap (λ (n : MacInfo). get_or n.vft_shadow j 0) (wr32-mac a v s) ∙ y,
  )

  clear_entry-IsReady : (k : ℕ) (s : Hw D) → IsReady s → IsReady (clear_entry k s).1
  clear_entry-IsReady k s r = wr32-IsReady psr_vlan_swc_vm_h 0 _ (
      wr32-IsReady psr_vlan_swc_vm_l 0 _
        (wr32-IsReady psr_vlan_swc 0 _ (wr32-IsReady psr_vlan_swc_idx k s r)))

  clear_entry-IsClear : (j k : ℕ) (s : Hw D) → j < 128 → IsClear j s → IsClear j (clear_entry k s).1
  clear_entry-IsClear j k s below c =
      wr32-IsClear j psr_vlan_swc_vm_h 0 _ (λ e. omega arith)
        (wr32-IsClear j psr_vlan_swc_vm_l 0 _ (λ e. omega arith)
          (wr32-IsClear j psr_vlan_swc 0 _ (λ e. omega arith)
            (wr32-IsClear j psr_vlan_swc_idx k s (λ e. omega arith) c)))

  cleared :
      (j : ℕ) (hw : Hw D)
      → j < 128
      → hw.mac.vft_size ≡ 128
      → IsReady hw
      → IsClear j (clear_vfta hw).1
  unfolding clear_vfta
  cleared j hw below size ready =
      for_range_inv (IsClear j) clear_entry 64 0 (λ k lo hi s. clear_entry-IsClear j k s below)
        (for_range hw.mac.vft_size 0 clear_word hw).1
        (for_range_at IsReady (IsClear j) clear_word hw.mac.vft_size 0 j (omega arith)
          (omega (arith, size)) (λ k lo hi s. clear_word-IsReady k s)
          (λ s. clear_word-reach j s below)
          (λ k lo hi s _. clear_word-stay j k s (λ e. omega arith)) hw ready)

  clear_vfta-IsReady : (hw : Hw D) → IsReady hw → IsReady (clear_vfta hw).1
  unfolding clear_vfta
  clear_vfta-IsReady hw ready =
      for_range_inv IsReady clear_entry 64 0 (λ k lo hi s. clear_entry-IsReady k s)
        (for_range hw.mac.vft_size 0 clear_word hw).1
        (for_range_inv IsReady clear_word hw.mac.vft_size 0 (λ k lo hi s. clear_word-IsReady k s) hw
          ready)

  -- On a mapped device whose registers hold what was written, with a table and a shadow of 128
  -- words, `txgbe_clear_vfta` succeeds, leaves the filter bit of every VLAN up to 4095 clear, and
  -- leaves the shadow equal to the table, whatever they held before.
  pub clear_vfta_lem :
      (vlan : ℕ) (hw : Hw D)
      → hw.mapped ≡ true
      → hw.mac.vft_size ≡ 128
      → length hw.mac.vft_shadow ≡ 128
      → vlan ≤ 4095
      → ((clear_vfta hw).0 ≡ success)
        × (vlan_bit cell vlan (clear_vfta hw).1 ≡ 0)
        × IsShadowed cell (clear_vfta hw).1
  clear_vfta_lem vlan hw mapped size len small = (
    unfold clear_vfta in refl,
    ap (bit (vlan % 32)) (cleared (vlan / 32) hw (omega arith) size (mapped, len)).0
        ∙ bit-zero (vlan % 32),
    (
      (clear_vfta-IsReady hw (mapped, len)).1,
      λ j below. let c = cleared j hw below size (mapped, len) in c.0 ∙ sym c.1,
    ),
  )
