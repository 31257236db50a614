-- ===== src/Mta/Table.antt =====
-- The operations on the multicast table, src/txgbe_hw.c.
use txgbe.Base.{
  ℕ, zero, suc, ◌+◌, ◌*◌, ◌/◌, ◌%◌, ◌^◌, bit_and, bit_or, nonzero, Bool, if◌then◌else◌, List, [],
  ◌∷◌, length, get_or, set, St, pure, ◌>>=◌, ◌>>◌, get, for_range,
}
use mathlib.Core.List.{map}
use txgbe.Hw.{Hw, Bus, Status, success}
use txgbe.Reg.{rd32, wr32, wr32a, not32, shl32}

abbrev pub psr_mc_tbl : ℕ
psr_mc_tbl = 0x15200

abbrev pub psr_ctl : ℕ
psr_ctl = 0x15000

abbrev pub psr_ctl_mo : ℕ
psr_ctl_mo = 0x60

abbrev pub psr_ctl_mfe : ℕ
psr_ctl_mfe = 0x80

abbrev pub psr_ctl_mo_shift : ℕ
psr_ctl_mo_shift = 5

-- The switch over the filter type, on the last two bytes of an address.
unfoldable pub mta_window : ℕ → ℕ → ℕ → ℕ
mta_window zero low high = bit_or (low / 2 ^ 4) (high * 2 ^ 4)
mta_window (suc zero) low high = bit_or (low / 2 ^ 3) (high * 2 ^ 5)
mta_window (suc (suc zero)) low high = bit_or (low / 2 ^ 2) (high * 2 ^ 6)
mta_window (suc (suc (suc zero))) low high = bit_or low (high * 2 ^ 8)
mta_window (suc (suc (suc (suc _)))) low high = 0

unfoldable pub mta_vector : ℕ → List ℕ → ℕ
mta_vector mc_filter_type mc_addr =
    bit_and (mta_window mc_filter_type (get_or mc_addr 4 0) (get_or mc_addr 5 0)) 0xfff

-- `mta_shadow[vector_reg] |= (1 << vector_bit)`
unfoldable pub mark : ℕ → List ℕ → List ℕ
mark vector shadow =
    let vector_reg = vector / 2 ^ 5 % 128 in
    set shadow vector_reg (bit_or (get_or shadow vector_reg 0) (2 ^ (vector % 32)))

module _ {D : Type 0} where
  unfoldable pub set_mta : List ℕ → St (Hw D) (Unit {0})
  set_mta mc_addr hw =
      let vector = mta_vector hw.mac.mc_filter_type mc_addr in
      (
        tt,
        record hw {
          addr_ctrl = record (hw.addr_ctrl) { mta_in_use = (hw.addr_ctrl.mta_in_use + 1) % 2 ^ 32 };
          mac = record (hw.mac) { mta_shadow = mark vector hw.mac.mta_shadow };
        },
      )

  -- The loop over the addresses that the iterator `next` gives.
  unfoldable pub set_all : List (List ℕ) → St (Hw D) (Unit {0})
  set_all [] = pure tt
  set_all (mc_addr ∷ mc_addr_list) = set_mta mc_addr >> set_all mc_addr_list

  -- The new count, and the shadow cleared when asked for.
  unfoldable pub start_update : ℕ → Bool → St (Hw D) (Unit {0})
  start_update mc_addr_count clear hw = (
    tt,
    record hw {
      addr_ctrl = record (hw.addr_ctrl) { num_mc_addrs = mc_addr_count; mta_in_use = 0 };
      mac = record (hw.mac) {
        mta_shadow = if clear then map (λ _. 0) hw.mac.mta_shadow else hw.mac.mta_shadow;
      };
    },
  )

module _ {D : Type 0} ⦃bus : Bus D⦄ where
  -- The last step: the filter is turned on.
  unfoldable pub enable_mta : St (Hw D) (Unit {0})
  enable_mta = do
    hw ← get
    if nonzero hw.addr_ctrl.mta_in_use
        then (do
          psrctl ← rd32 psr_ctl
          wr32 psr_ctl (
              bit_or (bit_and psrctl (not32 (bit_or psr_ctl_mo psr_ctl_mfe)))
                (bit_or psr_ctl_mfe (shl32 hw.mac.mc_filter_type psr_ctl_mo_shift))))
        else pure tt

  unfoldable pub update_mc_addr_list : List (List ℕ) → Bool → St (Hw D) Status
  update_mc_addr_list mc_addr_list clear = do
    start_update (length mc_addr_list) clear
    set_all mc_addr_list
    hw ← get
    for_range hw.mac.mcft_size 0 (λ i. wr32a psr_mc_tbl i (get_or hw.mac.mta_shadow i 0))
    enable_mta
    pure success

  unfoldable pub enable_mc : St (Hw D) Status
  enable_mc = enable_mta >> pure success

  unfoldable pub disable_mc : St (Hw D) Status
  disable_mc = do
    hw ← get
    if nonzero hw.addr_ctrl.mta_in_use
        then (do
          psrctl ← rd32 psr_ctl
          wr32 psr_ctl (
              bit_or (bit_and psrctl (not32 (bit_or psr_ctl_mo psr_ctl_mfe)))
                (shl32 hw.mac.mc_filter_type psr_ctl_mo_shift))
          pure success)
        else pure success
