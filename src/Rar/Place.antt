-- ===== src/Rar/Place.antt =====
-- Where src/txgbe_hw.c `txgbe_insert_mac_addr` puts an address.
use txgbe.Base.{ℕ, ◌+◌, ◌/◌, max, bit, bit_and, ◌<◌, ◌^◌, ◌≡◌, ◌≢◌, List, ◌⊎◌, inr}
use txgbe.Hw.{Hw, Bus, Status}
use txgbe.Rar.Regs.{psr_mac_swc_ad_h, psr_mac_swc_vm_l, psr_mac_swc_vm_h}
use txgbe.Rar.Entry.{RarDevice}
use txgbe.Rar.Add.{Kept}
use txgbe.Rar.Find.{HasWords, IsFree, Lacks}

module _ {D : Type 0} ⦃bus : Bus D⦄ {cell : ℕ → D → ℕ} {entry : ℕ → ℕ → D → ℕ}
    (ix : RarDevice bus cell entry) (addr : List ℕ) where
  -- The address was there already: no register of its entry changes.
  abbrev pub Found : ℕ → ℕ → D → D → Type 0
  Found mark r before after = (r < mark) × HasWords entry addr r before × Kept ix r before after

  -- The address was not there: it is put, valid, into a free entry or into the one at the mark.
  abbrev pub Put : ℕ → ℕ → ℕ → D → D → Type 0
  Put vmdq mark r before after =
      ((i : ℕ) → i < mark → Lacks entry addr i before)
      × ((r ≡ mark) ⊎ ((r < mark) × IsFree entry r before))
      × HasWords entry addr r after
      × (bit 31 (entry r psr_mac_swc_ad_h after) ≡ 1)
      × (entry r psr_mac_swc_vm_l after ≡ bit_and vmdq 0xffffffff)
      × (entry r psr_mac_swc_vm_h after ≡ vmdq / 2 ^ 32)

  -- The result is an entry in range, where the address was or is put; the other entries stay, and
  -- the high water mark is past the entry.
  abbrev pub Placed : ℕ → Hw D → (Status ⊎ ℕ) × Hw D → Type 0
  Placed vmdq hw out =
      (r : ℕ) × (out.0 ≡ inr r)
      × (r < hw.mac.num_rar_entries)
      × (Found (hw.mac.rar_highwater) r hw.dev out.1.dev
          ⊎ Put vmdq (hw.mac.rar_highwater) r hw.dev out.1.dev)
      × ((j : ℕ) → j ≢ r → Kept ix j hw.dev out.1.dev)
      × (out.1.mac.rar_highwater ≡ max (hw.mac.rar_highwater) (r + 1))
