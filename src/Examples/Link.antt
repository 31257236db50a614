-- ===== src/Examples/Link.antt =====
-- The theorems on flow control and VLAN filters at concrete devices.
use txgbe.Base.{
  List, [], ◌∷◌, bit, if◌then◌else◌, ℕ, zero, suc, sym, ◌≡◌, refl, not, ◌||◌, true, get_or,
  replicate, arith,
}
use txgbe.Hw.{Hw, success}
use txgbe.Fc.Negotiate.{negotiate_fc}
use txgbe.Fc.Autoneg.{LinkOps}
use txgbe.Fc.Compat.{negotiate_fc_agrees, sends_pause, obeys_pause}
use txgbe.Mta.Table.{update_mc_addr_list}
use txgbe.Mta.Hash.{update_mc_addr_list_lem, hits}
use txgbe.Vlan.Filter.{set_vfta, clear_vfta}
use txgbe.Vlan.Clear.{clear_vfta_lem}
use txgbe.Vlan.Table.{set_vfta_lem, IsShadowed, vlan_bit}
use txgbe.Examples.Device.{Memory, zeros, ram_bus, ram_cell, ram_bus-Ram, hw_over}

abbrev near : Hw Memory
near = hw_over zeros

-- One end advertises both bits, the other the asymmetric one alone.
negotiate_fc_agrees_example :
    let ours = negotiate_fc 0x180 0x80 0x100 0x80 0x100 0x80 near in
    let theirs = negotiate_fc 0x80 0x180 0x100 0x80 0x100 0x80 near in
    (ours.0 ≡ success)
    × (theirs.0 ≡ success)
    × ((not (sends_pause ours.1.fc.current_mode) || obeys_pause theirs.1.fc.current_mode) ≡ true)
    × ((not (sends_pause theirs.1.fc.current_mode) || obeys_pause ours.1.fc.current_mode) ≡ true)
negotiate_fc_agrees_example =
    negotiate_fc_agrees 0x180 0x80 0x100 0x80 near near (λ e. omega arith) (λ e. omega arith)

abbrev link : LinkOps Memory
link = record {
  check_link = λ hw. ((2, true), hw);
  read_advertisement = λ hw. (0xc00, hw);
  lp_advertised_pause = λ hw. (3, hw);
}

get_or-zeros : (n j z : ℕ) → get_or (replicate n z) j z ≡ z
get_or-zeros zero j z = refl
get_or-zeros (suc n) zero z = refl
get_or-zeros (suc n) (suc j) z = get_or-zeros n j z

set_vfta_lem_example :
    let after = set_vfta ⦃bus = ram_bus⦄ 100 0 true near in
    (after.0 ≡ success)
    × (vlan_bit ⦃bus = ram_bus⦄ ram_cell 100 after.1 ≡ 1)
    × IsShadowed ⦃bus = ram_bus⦄ ram_cell after.1
set_vfta_lem_example =
    set_vfta_lem ⦃bus = ram_bus⦄ ram_bus-Ram 100 0 100 true near refl
      (refl, λ j h. sym (get_or-zeros 128 j 0)) refl (omega arith) (omega arith)

clear_vfta_lem_example :
    ((clear_vfta ⦃bus = ram_bus⦄ near).0 ≡ success)
    × (vlan_bit ⦃bus = ram_bus⦄ ram_cell 77 (clear_vfta ⦃bus = ram_bus⦄ near).1 ≡ 0)
    × IsShadowed ⦃bus = ram_bus⦄ ram_cell (clear_vfta ⦃bus = ram_bus⦄ near).1
clear_vfta_lem_example =
    clear_vfta_lem ⦃bus = ram_bus⦄ ram_bus-Ram 77 near refl refl refl (omega arith)

-- Two addresses; the second one's last bytes are 0x20 and 0x01.
abbrev addresses : List (List ℕ)
addresses = (1 ∷ 0 ∷ 94 ∷ 0 ∷ 0 ∷ 251 ∷ []) ∷ (51 ∷ 51 ∷ 0 ∷ 0 ∷ 32 ∷ 1 ∷ []) ∷ []

update_mc_addr_list_lem_example :
    let after = update_mc_addr_list ⦃bus = ram_bus⦄ addresses true near in
    (after.0 ≡ success) × (bit 18 (after.1.dev 0x15200) ≡ (if hits 0 18 addresses then 1 else 0))
update_mc_addr_list_lem_example =
    update_mc_addr_list_lem ⦃bus = ram_bus⦄ ram_bus-Ram addresses true 18 near refl refl refl
      (omega arith)
