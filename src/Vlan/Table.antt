-- ===== src/Vlan/Table.antt =====
-- The VLAN filter table and its shadow, src/txgbe_hw.c: `txgbe_set_vfta` with virtual pools off.
use txgbe.Base.{
  ℕ, ◌/◌, ◌%◌, ◌≤◌, ◌<◌, ◌^◌, bit_and, ◌==◌, ◌≡◌, ◌∙◌, ap, sym, refl, Bool, true, false,
  if◌then◌else◌, bit, bit-bit_or, bit-bit_and, bit-two_pow, bit-le-one, bit_and-two_pow_zero,
  bit_and-two_pow_pos, bit-cases, length, get_or, set, get_or-set_self, get_or-set_ne, length-set,
  arith,
}
use native.Mathlib.Decide.{ℕ_discrete}
use mathlib.Core.Path.{subst}
use txgbe.Hw.{Hw, Bus, MacInfo, Status, success}
use txgbe.Reg.{rd32, wr32, not32}
use txgbe.Reg.Frame.{rd32-mapped, rd32-mac, wr32-mac}
use txgbe.Reg.Merge.{bit-not32}
use txgbe.Reg.Ram.{Ram, rd32-cell, rd32_value, wr32-cell_self, wr32-cell_ne}
use txgbe.Dcb.Port.{cfg_port_ctl, port_ctl_num_vt_mask}
use txgbe.Vlan.Filter.{psr_vlan_tbl, set_shadow, vfta_word, set_vlvf, store_vfta, set_vfta}

-- The new word differs from the old one in the one bit, and is the old one when nothing changed.
vfta_word-bit :
    (k j x : ℕ) (vlan_on : Bool)
    → k < 32
    → j < 32
    → bit k (vfta_word x (2 ^ j) vlan_on).0
      ≡ (if k == j then (if vlan_on then 1 else 0) else bit k x)
unfolding vfta_word
vfta_word-bit k j x vlan_on below below' = elim (ℕ_discrete k j) [
  | yes e ↦ ground (
    arith,
    e,
    ap (λ (i : ℕ). bit i x) e,
    bit-cases j x,
    bit_and-two_pow_zero x j,
    bit_and-two_pow_pos x j,
    bit-bit_or k x (2 ^ j),
    bit-bit_and k x (not32 (2 ^ j)),
    bit-not32 k (2 ^ j) below,
    bit-two_pow k j,
    bit-le-one k x,
  )
  | no ne ↦ ground (
    arith,
    ne,
    bit-bit_or k x (2 ^ j),
    bit-bit_and k x (not32 (2 ^ j)),
    bit-not32 k (2 ^ j) below,
    bit-two_pow k j,
    bit-le-one k x,
  )
]

vfta_word-same :
    (t x : ℕ) (vlan_on : Bool) → (vfta_word x t vlan_on).1 ≡ false → (vfta_word x t vlan_on).0 ≡ x
unfolding vfta_word
vfta_word-same t x vlan_on h = ground arith

module _ {D : Type 0} ⦃bus : Bus D⦄ (cell : ℕ → D → ℕ) where
  -- The shadow is what the table holds.
  abbrev pub IsShadowed : Hw D → Type 0
  IsShadowed hw =
      (length hw.mac.vft_shadow ≡ 128)
      × ((j : ℕ) → j < 128 → cell (psr_vlan_tbl j) hw.dev ≡ get_or hw.mac.vft_shadow j 0)

  -- The filter bit of a VLAN: 1 when its frames pass.
  abbrev pub vlan_bit : ℕ → Hw D → ℕ
  vlan_bit vlan hw = bit (vlan % 32) (cell (psr_vlan_tbl (vlan / 32)) hw.dev)

module _ {D : Type 0} ⦃bus : Bus D⦄ {cell : ℕ → D → ℕ} (ram : Ram bus cell) where
  -- Without pools the second part only reads.
  set_vlvf_off :
      (vlan vind : ℕ) (vlan_on changed : Bool) (hw : Hw D)
      → hw.mapped ≡ true
      → vlan ≤ 4095
      → bit_and (cell cfg_port_ctl hw.dev) port_ctl_num_vt_mask ≡ 0
      → set_vlvf vlan vind vlan_on changed hw ≡ ((success, changed), (rd32 cfg_port_ctl hw).1)
  unfolding set_vlvf
  set_vlvf_off vlan vind vlan_on changed hw m small off =
      let z : bit_and (rd32 cfg_port_ctl hw).0 port_ctl_num_vt_mask ≡ 0 =
        ap (λ (v : ℕ). bit_and v port_ctl_num_vt_mask) (rd32_value ram cfg_port_ctl hw m) ∙ off in
      ground (arith, z)

  -- The last three lines of `txgbe_set_vfta`.
  abbrev store_word : ℕ → ℕ → Bool → Hw D → Hw D
  store_word r w changed hw =
      (set_shadow r w (if changed then (wr32 (psr_vlan_tbl r) w hw).1 else hw)).1

  store_word_cell :
      (r w j : ℕ) (changed : Bool) (hw : Hw D)
      → hw.mapped ≡ true
      → (changed ≡ false → cell (psr_vlan_tbl r) hw.dev ≡ w)
      → cell (psr_vlan_tbl j) (store_word r w changed hw).dev
        ≡ (if j == r then w else cell (psr_vlan_tbl j) hw.dev)
  store_word_cell r w j changed hw m same = elim (ℕ_discrete j r) [
    | yes e ↦ ground (
      arith,
      e,
      ap (λ (i : ℕ). cell (psr_vlan_tbl i) hw.dev) e,
      ap (λ (i : ℕ). cell (psr_vlan_tbl i) (wr32 (psr_vlan_tbl r) w hw).1.dev) e,
      wr32-cell_self ram (psr_vlan_tbl r) w hw m,
      same,
    )
    | no ne ↦
        ground (
          arith,
          ne,
          wr32-cell_ne ram (psr_vlan_tbl r) (psr_vlan_tbl j) w hw (λ e. ne (omega arith)),
        )
  ]

  store_word_shadow :
      (r w j : ℕ) (changed : Bool) (hw : Hw D)
      → r < length hw.mac.vft_shadow
      → get_or (store_word r w changed hw).mac.vft_shadow j 0
        ≡ (if j == r then w else get_or hw.mac.vft_shadow j 0)
  store_word_shadow r w j changed hw h =
      let e : (if changed then (wr32 (psr_vlan_tbl r) w hw).1 else hw).mac ≡ hw.mac =
        ground (arith, wr32-mac (psr_vlan_tbl r) w hw) in
      ap (λ (m : MacInfo). get_or (set m.vft_shadow r w) j 0) e ∙ elim (ℕ_discrete j r) [
        | yes e ↦
            ap (λ (i : ℕ). get_or (set hw.mac.vft_shadow r w) i 0) e
            ∙ get_or-set_self hw.mac.vft_shadow r w 0 h
            ∙ ground (arith, e)
        | no ne ↦ get_or-set_ne hw.mac.vft_shadow r j w 0 (λ e. ne (sym e)) ∙ ground (arith, ne)
      ]

  store_word-length :
      (r w : ℕ) (changed : Bool) (hw : Hw D)
      → length (store_word r w changed hw).mac.vft_shadow ≡ length hw.mac.vft_shadow
  store_word-length r w changed hw =
      let e : (if changed then (wr32 (psr_vlan_tbl r) w hw).1 else hw).mac ≡ hw.mac =
        ground (arith, wr32-mac (psr_vlan_tbl r) w hw) in
      ap (λ (m : MacInfo). length (set m.vft_shadow r w)) e ∙ length-set hw.mac.vft_shadow r w

  stored :
      (r w : ℕ) (changed : Bool) (hw : Hw D)
      → store_vfta r w success changed hw ≡ (success, store_word r w changed hw)
  unfolding store_vfta
  stored r w true hw = refl
  stored r w false hw = refl

  set_vfta_off :
      (vlan vind : ℕ) (vlan_on : Bool) (hw : Hw D)
      → hw.mapped ≡ true
      → vlan ≤ 4095
      → bit_and (cell cfg_port_ctl hw.dev) port_ctl_num_vt_mask ≡ 0
      → let r = vlan / 32 % 128 in
        let (w, changed) = vfta_word (get_or hw.mac.vft_shadow r 0) (2 ^ (vlan % 32)) vlan_on in
        set_vfta vlan vind vlan_on hw ≡ (success, store_word r w changed (rd32 cfg_port_ctl hw).1)
  unfolding set_vfta
  set_vfta_off vlan vind vlan_on hw m small off =
      let r = vlan / 32 % 128 in
      let (w, changed) = vfta_word (get_or hw.mac.vft_shadow r 0) (2 ^ (vlan % 32)) vlan_on in
      let e : set_vfta vlan vind vlan_on hw
          ≡ (let p = set_vlvf vlan vind vlan_on changed hw in store_vfta r w p.0.0 p.0.1 p.1) =
        ground arith in
      e
      ∙ ap (λ (p : (Status × Bool) × Hw D). store_vfta r w p.0.0 p.0.1 p.1)
          (set_vlvf_off vlan vind vlan_on changed hw m small off)
      ∙ stored r w changed (rd32 cfg_port_ctl hw).1

  -- On a mapped device whose registers hold what was written, with pools off and a shadow that is
  -- what the table holds, turning a VLAN up to 4095 on or
  -- off succeeds, sets that VLAN's filter bit to 1 or to 0, keeps the filter bit of every other
  -- VLAN up to 4095, and leaves the shadow equal to the table.
  pub set_vfta_lem :
      (vlan vind other : ℕ) (vlan_on : Bool) (hw : Hw D)
      → hw.mapped ≡ true
      → IsShadowed cell hw
      → bit_and (cell cfg_port_ctl hw.dev) port_ctl_num_vt_mask ≡ 0
      → vlan ≤ 4095
      → other ≤ 4095
      → let after = set_vfta vlan vind vlan_on hw in
        (after.0 ≡ success)
        × (vlan_bit cell other after.1
            ≡ (if other == vlan then (if vlan_on then 1 else 0) else vlan_bit cell other hw))
        × IsShadowed cell after.1
  set_vfta_lem vlan vind other vlan_on hw m (len, shadowed) off small small' =
      let r = vlan / 32 % 128 in
      let x = get_or hw.mac.vft_shadow r 0 in
      let (w, changed) = vfta_word x (2 ^ (vlan % 32)) vlan_on in
      let hw1 = (rd32 cfg_port_ctl hw).1 in
      let m1 : hw1.mapped ≡ true = rd32-mapped cfg_port_ctl hw ∙ m in
      let mac : hw1.mac ≡ hw.mac = rd32-mac cfg_port_ctl hw in
      let x_cell : cell (psr_vlan_tbl r) hw.dev ≡ x = shadowed r (omega arith) in
      let same : changed ≡ false → cell (psr_vlan_tbl r) hw1.dev ≡ w = λ h.
        rd32-cell ram cfg_port_ctl (psr_vlan_tbl r) hw
        ∙ x_cell
        ∙ sym (vfta_word-same (2 ^ (vlan % 32)) x vlan_on h) in
      let words : (j : ℕ)
          → cell (psr_vlan_tbl j) (store_word r w changed hw1).dev
            ≡ (if j == r then w else cell (psr_vlan_tbl j) hw.dev) =
        λ j.
          store_word_cell r w j changed hw1 m1 same
          ∙ ap (λ (v : ℕ). if j == r then w else v)
              (rd32-cell ram cfg_port_ctl (psr_vlan_tbl j) hw) in
      let lengths : length hw1.mac.vft_shadow ≡ 128 =
        ap (λ (n : MacInfo). length n.vft_shadow) mac ∙ len in
      let shadows : (j : ℕ)
          → get_or (store_word r w changed hw1).mac.vft_shadow j 0
            ≡ (if j == r then w else get_or hw.mac.vft_shadow j 0) =
        λ j.
          store_word_shadow r w j changed hw1 (omega (arith, lengths))
          ∙ ap (λ (n : MacInfo). if j == r then w else get_or n.vft_shadow j 0) mac in
      let k = other % 32 in
      let bits : vlan_bit cell other (store_word r w changed hw1)
          ≡ (if other == vlan then (if vlan_on then 1 else 0) else vlan_bit cell other hw) =
        ap (bit k) (words (other / 32)) ∙ elim (ℕ_discrete (other / 32) r) [
          | yes e ↦ ground (
            arith,
            e,
            vfta_word-bit k (vlan % 32) x vlan_on (omega arith) (omega arith),
            ap (λ (i : ℕ). bit k (cell (psr_vlan_tbl i) hw.dev)) e,
            ap (bit k) x_cell,
          )
          | no ne ↦ ground (arith, ne)
        ] in
      subst
        (λ (after : Status × Hw D).
          (after.0 ≡ success)
          × (vlan_bit cell other after.1
              ≡ (if other == vlan then (if vlan_on then 1 else 0) else vlan_bit cell other hw))
          × IsShadowed cell after.1)
        (sym (set_vfta_off vlan vind vlan_on hw m small off))
        (
          refl,
          bits,
          (
            store_word-length r w changed hw1 ∙ lengths,
            λ j h.
                words j ∙ ap (λ (v : ℕ). if j == r then w else v) (shadowed j h) ∙ sym (shadows j),
          ),
        )
