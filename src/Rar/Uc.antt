-- ===== src/Rar/Uc.antt =====
-- The list of secondary unicast addresses, src/txgbe_hw.c: `txgbe_add_uc_addr` and
-- `txgbe_update_uc_addr_list`.
use txgbe.Base.{
  ℕ, ◌+◌, ◌-◌, ◌%◌, ◌^◌, nonzero, ltb, ◌&&◌, not, if◌then◌else◌, List, [], ◌∷◌, St, pure, ◌>>=◌,
  ◌>>◌, get, modify, for_range,
}
use txgbe.Hw.{Hw, Bus, Status, success}
use txgbe.Reg.{wr32m}
use txgbe.Mta.Table.{psr_ctl}
use txgbe.Rar.Regs.{psr_mac_swc_ad_h_av}
use txgbe.Rar.Table.{set_rar, zero_rar}

abbrev pub psr_ctl_upe : ℕ
psr_ctl_upe = 0x200

-- What the iterator `next` gives for one entry of the list: the address and its pools.
pub record UcAddr : Type 0 where
  pub addr : List ℕ
  pub vmdq : ℕ

-- A u32 counter.
abbrev pub add_one32 : ℕ → ℕ
add_one32 n = (n + 1) % 2 ^ 32

abbrev pub sub32 : ℕ → ℕ → ℕ
sub32 a b = (a + 2 ^ 32 - b) % 2 ^ 32

module _ {D : Type 0} where
  abbrev pub with_used : ℕ → Hw D → Hw D
  with_used n hw = record hw { addr_ctrl = record (hw.addr_ctrl) { rar_used_count = n } }

  abbrev pub with_overflow : ℕ → Hw D → Hw D
  with_overflow n hw = record hw { addr_ctrl = record (hw.addr_ctrl) { overflow_promisc = n } }

module _ {D : Type 0} ⦃bus : Bus D⦄ where
  unfoldable pub add_uc_addr : List ℕ → ℕ → St (Hw D) (Unit {0})
  add_uc_addr addr vmdq = do
    hw ← get
    if ltb hw.addr_ctrl.rar_used_count hw.mac.num_rar_entries
        then (do
          _ ← set_rar hw.addr_ctrl.rar_used_count addr vmdq psr_mac_swc_ad_h_av
          modify λ (hw1 : Hw D). with_used (add_one32 hw1.addr_ctrl.rar_used_count) hw1)
        else modify λ (hw1 : Hw D). with_overflow (add_one32 hw1.addr_ctrl.overflow_promisc) hw1

  -- The loop over the new addresses.
  unfoldable pub add_all : List UcAddr → St (Hw D) (Unit {0})
  add_all [] = pure tt
  add_all (a ∷ addr_list) = add_uc_addr a.addr a.vmdq >> add_all addr_list

  -- Promiscuous mode is turned on when the list comes to overflow, and off when it no more does, unless the user
  -- set it.
  unfoldable pub update_promisc : ℕ → St (Hw D) (Unit {0})
  update_promisc old_promisc_setting = do
    hw ← get
    if nonzero hw.addr_ctrl.overflow_promisc
        then (if not (nonzero old_promisc_setting) && not hw.addr_ctrl.user_set_promisc
            then wr32m psr_ctl psr_ctl_upe psr_ctl_upe
            else pure tt)
        else (if nonzero old_promisc_setting && not hw.addr_ctrl.user_set_promisc
            then wr32m psr_ctl psr_ctl_upe 0
            else pure tt)

  -- The counters are set back, and the entries in use zeroed.
  unfoldable pub drop_old : St (Hw D) (Unit {0})
  drop_old = do
    hw ← get
    let uc_addr_in_use = sub32 hw.addr_ctrl.rar_used_count 1
    modify λ (hw1 : Hw D).
        with_overflow 0 (with_used (sub32 hw1.addr_ctrl.rar_used_count uc_addr_in_use) hw1)
    for_range uc_addr_in_use 0 (λ i. zero_rar (1 + i))

  unfoldable pub update_uc_addr_list : List UcAddr → St (Hw D) Status
  update_uc_addr_list addr_list = do
    hw ← get
    drop_old
    add_all addr_list
    update_promisc hw.addr_ctrl.overflow_promisc
    pure success
