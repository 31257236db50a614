-- ===== src/Examples/Guests.antt =====
-- The theorem on a request of a virtual function for multicast addresses at a concrete device.
use txgbe.Base.{
  ℕ, zero, suc, ◌≡◌, refl, sym, List, [], ◌∷◌, replicate, get_or, bit, bit_or, ◌<◌, arith,
}
use txgbe.Hw.{Hw, success}
use txgbe.Sriov.Multicast.{
  VfDataStorage, psr_vm_l2ctl, psr_vm_l2ctl_rompe, hash_list, mc_entries, set_vf_multicasts,
}
use txgbe.Sriov.Hashed.{InStep}
use txgbe.Sriov.Requested.{set_vf_multicasts_lem}
use txgbe.Examples.Device.{Memory, zeros, ram_bus, ram_bus-Ram, hw_over}

-- Three hashes: 0x123, 0x7ff and 0x1001, the last one past twelve bits.
abbrev request : List ℕ
request = 0x30003 ∷ 0x07ff0123 ∷ 0x00001001 ∷ []

abbrev storage : VfDataStorage
storage = record { vf_mc_hashes = replicate 30 0; num_vf_mc_hashes = 0 }

abbrev near : Hw Memory
near = hw_over zeros

get_or_zeros : (n j z : ℕ) → get_or (replicate n z) j z ≡ z
get_or_zeros zero j z = refl
get_or_zeros (suc n) zero z = refl
get_or_zeros (suc n) (suc j) z = get_or_zeros n j z

-- The second hash sets the last bit of the word 63.
set_vf_multicasts_lem_example :
    let after = set_vf_multicasts ⦃bus = ram_bus⦄ request 5 storage near in
    (after.0.0 ≡ success)
    × InStep ⦃bus = ram_bus⦄ ram_bus-Ram after.1
    × (bit 31 (after.1.dev 0x152fc) ≡ 1)
    × (after.1.dev (psr_vm_l2ctl 5) ≡ bit_or 0 psr_vm_l2ctl_rompe)
    × (after.0.1.num_vf_mc_hashes ≡ mc_entries request)
    × ((j : ℕ) → j < mc_entries request → get_or after.0.1.vf_mc_hashes j 0 ≡ hash_list request j)
unfolding mc_entries hash_list
set_vf_multicasts_lem_example =
    set_vf_multicasts_lem ⦃bus = ram_bus⦄ ram_bus-Ram request 5 0x7ff storage near
      (refl, refl, λ j below. sym (get_or_zeros 128 j 0)) refl (omega arith)
