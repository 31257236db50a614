-- ===== src/Rar/Promisc.antt =====
-- Where the addresses are and when promiscuous mode is on after src/txgbe_hw.c
-- `txgbe_update_uc_addr_list`.
use txgbe.Base.{
  ℕ, ◌+◌, ◌-◌, ◌<◌, ◌≤◌, ◌^◌, ◌%◌, min, ◌≡◌, ◌≢◌, ◌∙◌, refl, sym, ap, true, false, if◌then◌else◌,
  List, length, get_or, bit, nonzero, bit-bit_or, bit-two_pow, bit-le-one, bit-zero, inr, arith,
}
use mathlib.Core.Path.{subst}
use txgbe.Hw.{Hw, Bus, AddrFilterInfo, Status, success}
use txgbe.Rar.Fill.{Elsewhere}
use txgbe.Reg.{wr32m, failed_read_reg}
use txgbe.Reg.Merge.{merged, bit-merged}
use txgbe.Reg.Indexed.{wr32m-cell_self}
use txgbe.Mta.Table.{psr_ctl}
use txgbe.Rar.Regs.{
  psr_mac_swc_ad_h, psr_mac_swc_ad_l, psr_mac_swc_ad_h_av, rar_low, rar_high, ad_h_mask,
}
use txgbe.Rar.Entry.{RarDevice, high_word}
use txgbe.Rar.Round.{low_half-high}
use txgbe.Rar.Uc.{UcAddr, psr_ctl_upe, update_promisc, update_uc_addr_list}
use txgbe.Rar.Add.{no_addr}
use txgbe.Rar.Loop.{Live}
use txgbe.Rar.Update.{
  update_promisc-Same, update_promisc-Kept, fresh, fresh-zero, fresh-cell, refilled,
  refilled-Filled, update_uc_addr_list_value,
}

pub bit-valid :
    (old : ℕ) (addr : List ℕ)
    → bit 31 (merged old ad_h_mask (high_word addr psr_mac_swc_ad_h_av)) ≡ 1
bit-valid old addr =
    bit-merged 31 old ad_h_mask (high_word addr psr_mac_swc_ad_h_av) (omega arith)
    ∙ ground (
      arith,
      bit-bit_or 31 0x4000ffff 0x80000000,
      bit-le-one 31 0x4000ffff,
      bit-two_pow 31 31,
      bit-bit_or 31 (rar_high addr) psr_mac_swc_ad_h_av,
      bit-le-one 31 (rar_high addr),
    )

-- Entry `i` of the table matches the address `addr`: its words are the address's, and it is valid.
abbrev pub Matches : {D : Type 0} → (ℕ → ℕ → D → ℕ) → List ℕ → ℕ → D → Type 0
Matches entry addr i d =
    (entry i psr_mac_swc_ad_l d ≡ rar_low addr)
    × (entry i psr_mac_swc_ad_h d % 2 ^ 16 ≡ rar_high addr % 2 ^ 16)
    × (bit 31 (entry i psr_mac_swc_ad_h d) ≡ 1)

-- Unless the user set promiscuous mode, it is on exactly when the addresses overflow.
abbrev pub Follows : {D : Type 0} → (ℕ → D → ℕ) → Hw D → Type 0
Follows cell hw =
    hw.addr_ctrl.user_set_promisc ≡ false
    → bit 9 (cell psr_ctl hw.dev) ≡ (if nonzero hw.addr_ctrl.overflow_promisc then 1 else 0)

module _ {D : Type 0} ⦃bus : Bus D⦄ {cell : ℕ → D → ℕ} {entry : ℕ → ℕ → D → ℕ}
    (ix : RarDevice bus cell entry) where
  -- The two counters, the entries of the addresses, and the old entries past them.
  abbrev pub Replaced : List UcAddr → Hw D → Hw D → Type 0
  Replaced addr_list hw after =
      let room = hw.mac.num_rar_entries - 1 in
      (after.addr_ctrl.rar_used_count ≡ 1 + min (length addr_list) room)
      × (after.addr_ctrl.overflow_promisc ≡ length addr_list - room)
      × ((j : ℕ)
          → j < length addr_list
          → j < room
          → Matches entry (get_or addr_list j no_addr).addr (1 + j) after.dev)
      × ((i : ℕ)
          → 1 + length addr_list ≤ i
          → i < hw.addr_ctrl.rar_used_count
          → (entry i psr_mac_swc_ad_l after.dev ≡ 0) × (entry i psr_mac_swc_ad_h after.dev ≡ 0))

  -- `update_promisc` brings the mode after the old overflow to the mode after the new one.
  update_promisc-Follows :
      (old : ℕ) (hw : Hw D)
      → hw.mapped ≡ true
      → cell psr_ctl hw.dev ≢ failed_read_reg
      → (hw.addr_ctrl.user_set_promisc ≡ false
          → bit 9 (cell psr_ctl hw.dev) ≡ (if nonzero old then 1 else 0))
      → Follows cell (update_promisc old hw).1
  unfolding update_promisc
  update_promisc-Follows old hw m answers before user =
      let c = cell psr_ctl hw.dev in
      let on : bit 9 (cell psr_ctl (wr32m psr_ctl psr_ctl_upe psr_ctl_upe hw).1.dev) ≡ 1 =
        ap (bit 9) (wr32m-cell_self ix psr_ctl psr_ctl_upe psr_ctl_upe hw refl m answers)
        ∙ bit-merged 9 c psr_ctl_upe psr_ctl_upe (omega arith)
        ∙ ground (arith, bit-two_pow 9 9) in
      let off : bit 9 (cell psr_ctl (wr32m psr_ctl psr_ctl_upe 0 hw).1.dev) ≡ 0 =
        ap (bit 9) (wr32m-cell_self ix psr_ctl psr_ctl_upe 0 hw refl m answers)
        ∙ bit-merged 9 c psr_ctl_upe 0 (omega arith)
        ∙ ground (arith, bit-two_pow 9 9, bit-zero 9) in
      let kept : (update_promisc old hw).1.addr_ctrl ≡ hw.addr_ctrl =
        ap (λ (h : Hw D). h.addr_ctrl) (update_promisc-Same old hw) in
      let free : hw.addr_ctrl.user_set_promisc ≡ false =
        sym (ap (λ (x : AddrFilterInfo). x.user_set_promisc) kept) ∙ user in
      let over = ap (λ (x : AddrFilterInfo). x.overflow_promisc) kept in
      ground (arith, on, off, free, over, before free)

  module _ (hw : Hw D) (mapped : hw.mapped ≡ true) (used : 1 ≤ hw.addr_ctrl.rar_used_count)
      (small : hw.addr_ctrl.rar_used_count < 2 ^ 32) (addr_list : List UcAddr) (live : Live ix 1 hw)
      (fits : length addr_list + 1 < 2 ^ 32) where
    abbrev finished : Hw D
    finished =
        (update_promisc hw.addr_ctrl.overflow_promisc
          (refilled ix hw mapped used small addr_list live fits)).1

    finished-Replaced : Replaced addr_list hw finished
    finished-Replaced =
        let mid = refilled ix hw mapped used small addr_list live fits in
        let (same, put, kept, out) = refilled-Filled ix hw mapped used small addr_list live fits in
        let o = hw.addr_ctrl.overflow_promisc in
        let last = update_promisc-Same o mid in
        let low = λ (i : ℕ). update_promisc-Kept o mid ix i psr_mac_swc_ad_l (λ e. omega arith) in
        let high = λ (i : ℕ). update_promisc-Kept o mid ix i psr_mac_swc_ad_h (λ e. omega arith) in
        (
          ap (λ (h : Hw D). h.addr_ctrl.rar_used_count) last
              ∙ ap (λ (h : Hw D). h.addr_ctrl.rar_used_count) same,
          ap (λ (h : Hw D). h.addr_ctrl.overflow_promisc) last
              ∙ ap (λ (h : Hw D). h.addr_ctrl.overflow_promisc) same
              ∙ omega arith,
          λ j hj hr.
              (let (vl, vh, l, h) = put j hj hr in
                let a = (get_or addr_list j no_addr).addr in
                let old = entry (1 + j) psr_mac_swc_ad_h (fresh ix hw mapped used small).dev in
                (
                  low (1 + j) ∙ l,
                  ap (λ (x : ℕ). x % 2 ^ 16) (high (1 + j) ∙ h)
                      ∙ low_half-high old psr_mac_swc_ad_h_av a,
                  ap (bit 31) (high (1 + j) ∙ h) ∙ bit-valid old a,
                )),
          λ i lo hi.
              (let (zl, zh) = fresh-zero ix hw mapped used small i (omega arith) hi in
                let rest = kept i (inr lo) in
                (
                  low i ∙ rest psr_mac_swc_ad_l (λ e. omega arith) ∙ zl,
                  high i ∙ rest psr_mac_swc_ad_h (λ e. omega arith) ∙ zh,
                )),
        )

  -- On a mapped device with the receive address window, of which entry 0 is in use and no other entry
  -- reads as all ones, `txgbe_update_uc_addr_list` of a list of u32 length succeeds; the table then
  -- counts entry 0 and as many of the addresses as there is room for, and the others as overflow; the
  -- addresses that have room match, in their order, from entry 1 on, and the entries in use before
  -- that are past the list are zero.
  pub update_uc_addr_list_lem :
      (addr_list : List UcAddr) (hw : Hw D)
      → hw.mapped ≡ true
      → 1 ≤ hw.addr_ctrl.rar_used_count
      → hw.addr_ctrl.rar_used_count < 2 ^ 32
      → Live ix 1 hw
      → length addr_list + 1 < 2 ^ 32
      → let after = update_uc_addr_list addr_list hw in
        (after.0 ≡ success) × Replaced addr_list hw after.1
  update_uc_addr_list_lem addr_list hw mapped used small live fits =
      subst (λ (t : Status × Hw D). (t.0 ≡ success) × Replaced addr_list hw t.1)
        (sym (update_uc_addr_list_value ix hw mapped used small addr_list live fits))
        (refl, finished-Replaced hw mapped used small addr_list live fits)

  -- On a mapped device with the receive address window, of which entry 0 is in use and no other entry
  -- reads as all ones, and whose filter control register does not either,
  -- `txgbe_update_uc_addr_list` of a list of u32 length keeps the agreement of promiscuous mode with
  -- the overflow: if before it the mode was on exactly when addresses overflowed, unless the user set
  -- it, then so it is after it.
  pub update_uc_addr_list-Follows :
      (addr_list : List UcAddr) (hw : Hw D)
      → hw.mapped ≡ true
      → 1 ≤ hw.addr_ctrl.rar_used_count
      → hw.addr_ctrl.rar_used_count < 2 ^ 32
      → Live ix 1 hw
      → length addr_list + 1 < 2 ^ 32
      → cell psr_ctl hw.dev ≢ failed_read_reg
      → Follows cell hw
      → Follows cell (update_uc_addr_list addr_list hw).1
  update_uc_addr_list-Follows addr_list hw mapped used small live fits answers before =
      let mid = refilled ix hw mapped used small addr_list live fits in
      let (same, put, kept, out) = refilled-Filled ix hw mapped used small addr_list live fits in
      let elsewhere : Elsewhere ix psr_ctl = (
        (λ e. omega arith),
        (λ e. omega arith),
        (λ e. omega arith),
        (λ e. omega arith),
        (λ e. omega arith),
      ) in
      let held : cell psr_ctl mid.dev ≡ cell psr_ctl hw.dev =
        out psr_ctl elsewhere ∙ fresh-cell ix hw mapped used small psr_ctl elsewhere in
      subst (λ (t : Status × Hw D). Follows cell t.1)
        (sym (update_uc_addr_list_value ix hw mapped used small addr_list live fits))
        (update_promisc-Follows hw.addr_ctrl.overflow_promisc mid
          (ap (λ (h : Hw D). h.mapped) same ∙ mapped) (λ e. answers (sym held ∙ e))
          (λ user.
            ap (bit 9) held
            ∙ before (sym (ap (λ (h : Hw D). h.addr_ctrl.user_set_promisc) same) ∙ user)))
