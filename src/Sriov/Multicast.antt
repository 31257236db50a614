-- ===== src/Sriov/Multicast.antt =====
-- The request of a virtual function for multicast addresses, src/txgbe_sriov.c:
-- `txgbe_set_vf_multicasts`, with the part of `struct vf_data_storage` that it fills.
use txgbe.Base.{
  ℕ, zero, suc, ◌+◌, ◌*◌, ◌/◌, ◌%◌, ◌^◌, bit_and, bit_or, min, List, get_or, set, St, pure, ◌>>=◌,
  ◌>>◌, get,
}
use txgbe.Hw.{Hw, Bus, Status, success}
use txgbe.Reg.{rd32, wr32, wr32a}
use txgbe.Mta.Table.{psr_mc_tbl}

abbrev pub max_vf_mc_entries : ℕ
max_vf_mc_entries = 30

abbrev pub psr_vm_l2ctl : ℕ → ℕ
psr_vm_l2ctl i = 0x15600 + i * 4

abbrev pub psr_vm_l2ctl_rompe : ℕ
psr_vm_l2ctl_rompe = 0x200

abbrev pub vt_msginfo_shift : ℕ
vt_msginfo_shift = 16

abbrev pub vt_msginfo_mask : ℕ
vt_msginfo_mask = 0xff0000

-- `struct vf_data_storage`: an array of u16 and how many of them are in use.
pub record VfDataStorage : Type 0 where
  pub vf_mc_hashes : List ℕ
  pub num_vf_mc_hashes : ℕ

-- `hash_list[i]`, a u16 of the message from its second word on.
unfoldable pub hash_list : List ℕ → ℕ → ℕ
hash_list msgbuf i = get_or msgbuf (1 + i / 2) 0 / 2 ^ (16 * (i % 2)) % 2 ^ 16

-- The entries that the first word announces, cut to what the array holds.
unfoldable pub mc_entries : List ℕ → ℕ
mc_entries msgbuf =
    min (bit_and (get_or msgbuf 0 0) vt_msginfo_mask / 2 ^ vt_msginfo_shift) max_vf_mc_entries

-- The first loop, with `n` entries left.
unfoldable pub save_hashes : ℕ → ℕ → List ℕ → List ℕ → List ℕ
save_hashes zero i msgbuf vf_mc_hashes = vf_mc_hashes
save_hashes (suc n) i msgbuf vf_mc_hashes =
    save_hashes n (i + 1) msgbuf (set vf_mc_hashes i (hash_list msgbuf i))

unfoldable pub store_mta : ℕ → ℕ → {D : Type 0} → St (Hw D) (Unit {0})
store_mta vector_reg mta_reg hw = (
  tt,
  record hw { mac = record (hw.mac) { mta_shadow = set hw.mac.mta_shadow vector_reg mta_reg } },
)

module _ {D : Type 0} ⦃bus : Bus D⦄ where
  -- A round of the second loop.
  unfoldable pub mark_hash : ℕ → St (Hw D) (Unit {0})
  mark_hash vf_mc_hash = do
    hw ← get
    let vector_reg = vf_mc_hash / 2 ^ 5 % 128
    let mta_reg = bit_or (get_or hw.mac.mta_shadow vector_reg 0) (2 ^ (vf_mc_hash % 32))
    store_mta vector_reg mta_reg
    wr32a psr_mc_tbl vector_reg mta_reg

  -- The second loop, with `n` entries left.
  unfoldable pub mark_hashes : ℕ → ℕ → List ℕ → St (Hw D) (Unit {0})
  mark_hashes zero i vf_mc_hashes = pure tt
  mark_hashes (suc n) i vf_mc_hashes =
      mark_hash (get_or vf_mc_hashes i 0) >> mark_hashes n (i + 1) vf_mc_hashes

  unfoldable pub set_vf_multicasts : List ℕ → ℕ → VfDataStorage → St (Hw D) (Status × VfDataStorage)
  set_vf_multicasts msgbuf vf vfinfo = do
    vmolr ← rd32 (psr_vm_l2ctl vf)
    let entries = mc_entries msgbuf
    let hashes = save_hashes entries 0 msgbuf vfinfo.vf_mc_hashes
    mark_hashes entries 0 hashes
    wr32 (psr_vm_l2ctl vf) (bit_or vmolr psr_vm_l2ctl_rompe)
    pure (success, record { vf_mc_hashes = hashes; num_vf_mc_hashes = entries })
