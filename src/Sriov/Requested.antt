-- ===== src/Sriov/Requested.antt =====
-- The whole of a request for multicast addresses: src/txgbe_sriov.c `txgbe_set_vf_multicasts`.
use txgbe.Base.{
  ℕ, zero, suc, ◌+◌, ◌*◌, ◌/◌, ◌%◌, ◌^◌, ◌≤◌, ◌<◌, ◌≡◌, ◌∙◌, refl, sym, ap, if◌then◌else◌, bit,
  bit_or, List, length, get_or, arith,
}
use txgbe.Hw.{Hw, Bus, MacInfo, success}
use txgbe.Reg.{rd32, wr32}
use txgbe.Reg.Frame.{rd32-mapped, rd32-mac, wr32-mapped, wr32-mac}
use txgbe.Reg.Ram.{Ram, rd32-cell, rd32_value, wr32-cell_self, wr32-cell_ne}
use txgbe.Mta.Table.{psr_mc_tbl}
use txgbe.Mta.Hash.{table_bit}
use txgbe.Sriov.Multicast.{
  VfDataStorage, psr_vm_l2ctl, psr_vm_l2ctl_rompe, hash_list, mc_entries, save_hashes, store_mta,
  mark_hash, mark_hashes, set_vf_multicasts,
}
use txgbe.Sriov.Hashed.{
  asked, InStep, save_hashes_within, mark_hashes-InStep, mark_hashes-table_bit,
}

mc_entries-le : (msgbuf : List ℕ) → mc_entries msgbuf ≤ 30
unfolding mc_entries
mc_entries-le msgbuf = omega arith

module _ {D : Type 0} ⦃bus : Bus D⦄ {cell : ℕ → D → ℕ} (ram : Ram bus cell) where
  rd32-InStep : (a : ℕ) (hw : Hw D) → InStep ram hw → InStep ram (rd32 a hw).1
  rd32-InStep a hw (mapped, len, step) =
      let kept = ap (λ (m : MacInfo). m.mta_shadow) (rd32-mac a hw) in
      (
        rd32-mapped a hw ∙ mapped,
        ap length kept ∙ len,
        λ j below.
            rd32-cell ram a (psr_mc_tbl + j * 4) hw
            ∙ step j below
            ∙ sym (ap (λ (s : List ℕ). get_or s j 0) kept),
      )

  -- A write past the table.
  wr32-InStep : (a x : ℕ) (hw : Hw D) → 0x15400 ≤ a → InStep ram hw → InStep ram (wr32 a x hw).1
  wr32-InStep a x hw past (mapped, len, step) =
      let kept = ap (λ (m : MacInfo). m.mta_shadow) (wr32-mac a x hw) in
      (
        wr32-mapped a x hw ∙ mapped,
        ap length kept ∙ len,
        λ j below.
            wr32-cell_ne ram a (psr_mc_tbl + j * 4) x hw (λ e. omega arith)
            ∙ step j below
            ∙ sym (ap (λ (s : List ℕ). get_or s j 0) kept),
      )

  mark_hash-cell_past :
      (h a : ℕ) (hw : Hw D) → 0x15400 ≤ a → cell a (mark_hash h hw).1.dev ≡ cell a hw.dev
  unfolding mark_hash store_mta
  mark_hash-cell_past h a hw past =
      let r = h / 2 ^ 5 % 128 in
      let x = bit_or (get_or hw.mac.mta_shadow r 0) (2 ^ (h % 32)) in
      wr32-cell_ne ram (psr_mc_tbl + r * 4) a x (store_mta r x hw).1 (λ e. omega arith)

  mark_hashes-cell_past :
      (n i a : ℕ) (hashes : List ℕ) (hw : Hw D)
      → 0x15400 ≤ a
      → cell a (mark_hashes n i hashes hw).1.dev ≡ cell a hw.dev
  unfolding mark_hashes
  mark_hashes-cell_past zero i a hashes hw past = refl
  mark_hashes-cell_past (suc n) i a hashes hw past =
      let h = get_or hashes i 0 in
      mark_hashes-cell_past n (i + 1) a hashes (mark_hash h hw).1 past
      ∙ mark_hash-cell_past h a hw past

  -- When the table of 128 words on a mapped device, whose registers hold what was written, agrees
  -- with its shadow and the array of the function has 30 hashes, a request for multicast addresses
  -- succeeds; table and shadow agree afterwards; a bit of the table is set when one of the entries
  -- that count has it in its low twelve bits, and is otherwise what it was; the function accepts
  -- frames of the table, its other filter bits kept; and the array holds those entries.
  pub set_vf_multicasts_lem :
      (msgbuf : List ℕ) (vf v : ℕ) (vfinfo : VfDataStorage) (hw : Hw D)
      → InStep ram hw
      → length vfinfo.vf_mc_hashes ≡ 30
      → v < 4096
      → let after = set_vf_multicasts msgbuf vf vfinfo hw in
        let entries = mc_entries msgbuf in
        (after.0.0 ≡ success)
        × InStep ram after.1
        × (bit (v % 32) (cell (psr_mc_tbl + v / 32 * 4) after.1.dev) ≡ (
            if asked v entries 0 msgbuf
            then 1
            else bit (v % 32) (cell (psr_mc_tbl + v / 32 * 4) hw.dev)))
        × (cell (psr_vm_l2ctl vf) after.1.dev
            ≡ bit_or (cell (psr_vm_l2ctl vf) hw.dev) psr_vm_l2ctl_rompe)
        × (after.0.1.num_vf_mc_hashes ≡ entries)
        × ((j : ℕ) → j < entries → get_or after.0.1.vf_mc_hashes j 0 ≡ hash_list msgbuf j)
  unfolding set_vf_multicasts
  set_vf_multicasts_lem msgbuf vf v vfinfo hw step len below =
      let n = mc_entries msgbuf in
      let a = psr_vm_l2ctl vf in
      let vmolr = (rd32 a hw).0 in
      let hw1 = (rd32 a hw).1 in
      let hashes = save_hashes n 0 msgbuf vfinfo.vf_mc_hashes in
      let hw2 = (mark_hashes n 0 hashes hw1).1 in
      let x = bit_or vmolr psr_vm_l2ctl_rompe in
      let hw3 = (wr32 a x hw2).1 in
      let step1 = rd32-InStep a hw step in
      let step2 = mark_hashes-InStep ram n 0 hashes hw1 step1 in
      let step3 : InStep ram hw3 = wr32-InStep a x hw2 (omega arith) step2 in
      let saved : (j : ℕ) → j < n → get_or hashes j 0 ≡ hash_list msgbuf j = λ j h.
        save_hashes_within n 0 j msgbuf vfinfo.vf_mc_hashes (omega arith) (omega arith)
          (omega (arith, len, mc_entries-le msgbuf)) in
      let reg = v / 32 in
      (
        refl,
        step3,
        ap (bit (v % 32)) (step3.2 reg (omega arith))
            ∙ ap (λ (m : MacInfo). table_bit v m.mta_shadow) (wr32-mac a x hw2)
            ∙ mark_hashes-table_bit ram n 0 v msgbuf hashes hw1 step1 below
                (λ j lo hi. saved j (omega arith))
            ∙ ap (λ (b : ℕ). if asked v n 0 msgbuf then 1 else b)
                (ap (λ (m : MacInfo). table_bit v m.mta_shadow) (rd32-mac a hw)
                  ∙ sym (ap (bit (v % 32)) (step.2 reg (omega arith)))),
        wr32-cell_self ram a x hw2 step2.0
            ∙ ap (λ (y : ℕ). bit_or y psr_vm_l2ctl_rompe) (rd32_value ram a hw step.0),
        refl,
        saved,
      )
