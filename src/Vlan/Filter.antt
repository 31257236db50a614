-- ===== src/Vlan/Filter.antt =====
-- src/txgbe_hw.c: `txgbe_find_vlvf_slot`, `txgbe_set_vlvf`, `txgbe_set_vfta` and
-- `txgbe_clear_vfta`.
use txgbe.Base.{
  ℕ, zero, suc, ◌+◌, ◌-◌, ◌*◌, ◌/◌, ◌%◌, ◌^◌, bit_and, bit_or, ltb, nonzero, ◌==◌, Bool, true,
  false, not, ◌&&◌, if◌then◌else◌, Option, none, some, get_or, set, St, pure, ◌>>=◌, ◌>>◌, get,
  for_range,
}
use txgbe.Hw.{Hw, Bus, Status, success, err_param, err_no_space}
use txgbe.Reg.{rd32, wr32, not32}
use txgbe.Dcb.Port.{cfg_port_ctl, port_ctl_num_vt_mask}

abbrev pub psr_vlan_tbl : ℕ → ℕ
psr_vlan_tbl i = 0x16000 + i * 4

abbrev pub psr_vlan_swc : ℕ
psr_vlan_swc = 0x16220

abbrev pub psr_vlan_swc_vm_l : ℕ
psr_vlan_swc_vm_l = 0x16224

abbrev pub psr_vlan_swc_vm_h : ℕ
psr_vlan_swc_vm_h = 0x16228

abbrev pub psr_vlan_swc_idx : ℕ
psr_vlan_swc_idx = 0x16230

abbrev pub psr_vlan_swc_vien : ℕ
psr_vlan_swc_vien = 0x80000000

abbrev pub psr_vlan_swc_entries : ℕ
psr_vlan_swc_entries = 64

-- `hw->mac.vft_shadow[i] = v`
abbrev pub set_shadow : {D : Type 0} → ℕ → ℕ → St (Hw D) (Unit {0})
set_shadow i v hw =
    (tt, record hw { mac = record (hw.mac) { vft_shadow = set hw.mac.vft_shadow i v } })

-- Part 1 of `txgbe_set_vfta`: the new word and whether it is another one.
unfoldable pub vfta_word : ℕ → ℕ → Bool → ℕ × Bool
vfta_word vfta targetbit vlan_on =
    if vlan_on
    then (if nonzero (bit_and vfta targetbit) then (vfta, false) else (bit_or vfta targetbit, true))
    else if nonzero (bit_and vfta targetbit)
    then (bit_and vfta (not32 targetbit), true)
    else (vfta, false)

module _ {D : Type 0} ⦃bus : Bus D⦄ where
  -- The search loop from `regindex`, with `n` entries left and the first empty slot found so far
  -- (0 for none): the slot of the VLAN, the first empty one, or none.
  unfoldable pub vlvf_search : ℕ → ℕ → ℕ → ℕ → St (Hw D) (Option ℕ)
  vlvf_search vlan zero regindex first_empty_slot =
      pure (if nonzero first_empty_slot then some first_empty_slot else none)
  vlvf_search vlan (suc n) regindex first_empty_slot = do
    wr32 psr_vlan_swc_idx regindex
    bits ← rd32 psr_vlan_swc
    let empty = not (nonzero bits) && not (nonzero first_empty_slot)
    let rest = vlvf_search vlan n (regindex + 1) (if empty then regindex else first_empty_slot)
    if not empty && bit_and bits 0xfff == vlan then pure (some regindex) else rest

  unfoldable pub find_vlvf_slot : ℕ → St (Hw D) (Option ℕ)
  find_vlvf_slot vlan =
      if vlan == 0 then pure (some 0) else vlvf_search vlan (psr_vlan_swc_entries - 1) 1 0

  -- The pool bit: set, or cleared with the bits that are left in both halves.
  unfoldable pub set_pool : ℕ → St (Hw D) ℕ
  set_pool vind =
      if ltb vind 32
      then (do
        bits ← rd32 psr_vlan_swc_vm_l
        wr32 psr_vlan_swc_vm_l (bit_or bits (2 ^ vind))
        pure (bit_or bits (2 ^ vind)))
      else do
        bits ← rd32 psr_vlan_swc_vm_h
        wr32 psr_vlan_swc_vm_h (bit_or bits (2 ^ (vind - 32)))
        pure (bit_or bits (2 ^ (vind - 32)))

  unfoldable pub clear_pool : ℕ → St (Hw D) ℕ
  clear_pool vind =
      if ltb vind 32
      then (do
        bits ← rd32 psr_vlan_swc_vm_l
        wr32 psr_vlan_swc_vm_l (bit_and bits (not32 (2 ^ vind)))
        other ← rd32 psr_vlan_swc_vm_h
        pure (bit_or (bit_and bits (not32 (2 ^ vind))) other))
      else do
        bits ← rd32 psr_vlan_swc_vm_h
        wr32 psr_vlan_swc_vm_h (bit_and bits (not32 (2 ^ (vind - 32))))
        other ← rd32 psr_vlan_swc_vm_l
        pure (bit_or (bit_and bits (not32 (2 ^ (vind - 32)))) other)

  -- The status and what `*vfta_changed` is afterwards.
  unfoldable pub set_vlvf : ℕ → ℕ → Bool → Bool → St (Hw D) (Status × Bool)
  set_vlvf vlan vind vlan_on vfta_changed =
      if ltb 4095 vlan then pure (err_param, vfta_changed) else do
        vt ← rd32 cfg_port_ctl
        if nonzero (bit_and vt port_ctl_num_vt_mask)
            then (do
              slot ← find_vlvf_slot vlan
              elim slot [
                | none ↦ pure (err_no_space, vfta_changed)
                | some vlvf_index ↦ (do
                  wr32 psr_vlan_swc_idx vlvf_index
                  bits ← (if vlan_on then set_pool vind else clear_pool vind)
                  if nonzero bits
                      then (do
                        wr32 psr_vlan_swc (bit_or psr_vlan_swc_vien vlan)
                        pure (success, if vlan_on then vfta_changed else false))
                      else (wr32 psr_vlan_swc 0 >> pure (success, vfta_changed)))
              ])
            else pure (success, vfta_changed)

  -- What `txgbe_set_vfta` does with the result of the second part.
  unfoldable pub store_vfta : ℕ → ℕ → Status → Bool → St (Hw D) Status
  store_vfta regindex vfta success vfta_changed hw =
      let (_, hw1) = if vfta_changed then wr32 (psr_vlan_tbl regindex) vfta hw else (tt, hw) in
      (success, (set_shadow regindex vfta hw1).1)
  store_vfta regindex vfta failed vfta_changed hw = (failed, hw)

  unfoldable pub set_vfta : ℕ → ℕ → Bool → St (Hw D) Status
  set_vfta vlan vind vlan_on hw =
      let regindex = vlan / 32 % 128 in
      let (vfta, changed) =
        vfta_word (get_or hw.mac.vft_shadow regindex 0) (2 ^ (vlan % 32)) vlan_on in
      if ltb 4095 vlan
      then (err_param, hw)
      else (do
        result ← set_vlvf vlan vind vlan_on changed
        store_vfta regindex vfta result.0 result.1)
          hw

  unfoldable pub clear_vfta : St (Hw D) Status
  clear_vfta = do
    hw ← get
    for_range hw.mac.vft_size 0 (λ offset. wr32 (psr_vlan_tbl offset) 0 >> set_shadow offset 0)
    for_range psr_vlan_swc_entries 0 (λ offset. do
      wr32 psr_vlan_swc_idx offset
      wr32 psr_vlan_swc 0
      wr32 psr_vlan_swc_vm_l 0
      wr32 psr_vlan_swc_vm_h 0)
    pure success
