-- ===== src/Rar/Insert.antt =====
-- src/txgbe_hw.c `txgbe_insert_mac_addr`.
use txgbe.Base.{
  ℕ, zero, suc, ◌+◌, bit_and, ltb, leb, ◌==◌, ◌&&◌, not, if◌then◌else◌, List, St, pure, ◌>>=◌, ◌>>◌,
  get, modify, ◌⊎◌, inl, inr,
}
use txgbe.Hw.{Hw, Bus, Status, err_invalid_mac_addr}
use txgbe.Reg.{rd32, wr32}
use txgbe.Rar.Regs.{
  psr_mac_swc_ad_l, psr_mac_swc_ad_h, psr_mac_swc_idx, psr_mac_swc_ad_h_av, rar_low, rar_high,
}
use txgbe.Rar.Table.{set_rar}
use txgbe.Rar.Uc.{add_one32}

abbrev pub no_empty_rar_found : ℕ
no_empty_rar_found = 0xffffffff

module _ {D : Type 0} ⦃bus : Bus D⦄ where
  -- The search from `rar` on with `n` entries left; the result is `rar` after the loop, which is
  -- below the high water mark after a `break`, and `first_empty_rar`.
  unfoldable pub find_rar : List ℕ → ℕ → ℕ → ℕ → St (Hw D) (ℕ × ℕ)
  find_rar addr zero rar first_empty = pure (rar, first_empty)
  find_rar addr (suc n) rar first_empty = do
    wr32 psr_mac_swc_idx rar
    high ← rd32 psr_mac_swc_ad_h
    let next = find_rar addr n (rar + 1)
    if (bit_and psr_mac_swc_ad_h_av high == 0) && (first_empty == no_empty_rar_found)
        then next rar
        else if bit_and high 0xffff == rar_high addr
        then (do
          low ← rd32 psr_mac_swc_ad_l
          if low == rar_low addr then pure (rar, first_empty) else next first_empty)
        else next first_empty

  -- The address is put where the search has found a place for it. The call of `mac.ops.set_vmdq` for
  -- an address that is there already does nothing, since the pointer is null.
  unfoldable pub place_rar : List ℕ → ℕ → ℕ → ℕ → St (Hw D) (Status ⊎ ℕ)
  place_rar addr vmdq rar first_empty = do
    hw ← get
    if ltb rar hw.mac.rar_highwater
        then pure (inr rar)
        else if not (first_empty == no_empty_rar_found)
        then set_rar first_empty addr vmdq psr_mac_swc_ad_h_av
          >>= (λ (_ : Status). pure (inr first_empty))
        else if rar == hw.mac.rar_highwater
        then (do
          _ ← set_rar rar addr vmdq psr_mac_swc_ad_h_av
          modify λ (hw1 : Hw D). record hw1 {
            mac = record (hw1.mac) { rar_highwater = add_one32 hw1.mac.rar_highwater };
          }
          pure (inr rar))
        else if leb hw.mac.num_rar_entries rar
        then pure (inl err_invalid_mac_addr)
        else pure (inr rar)

  unfoldable pub insert_mac_addr : List ℕ → ℕ → St (Hw D) (Status ⊎ ℕ)
  insert_mac_addr addr vmdq = do
    hw ← get
    (rar, first_empty) ← find_rar addr hw.mac.rar_highwater 0 no_empty_rar_found
    place_rar addr vmdq rar first_empty
