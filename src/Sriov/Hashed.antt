-- ===== src/Sriov/Hashed.antt =====
-- What a request for multicast addresses changes: src/txgbe_sriov.c `txgbe_set_vf_multicasts`.
use txgbe.Base.{
  ℕ, zero, suc, ◌+◌, ◌*◌, ◌/◌, ◌%◌, ◌^◌, ◌≤◌, ◌<◌, ◌≡◌, ◌∙◌, refl, sym, ap, ◌==◌, ◌||◌, Bool, true,
  false, if◌then◌else◌, bit_or, List, length, get_or, set, get_or-set_self, get_or-set_ne,
  length-set, arith,
}
use native.Mathlib.Decide.{ℕ_discrete}
use txgbe.Hw.{Hw, Bus, MacInfo}
use txgbe.Reg.{wr32}
use txgbe.Reg.Frame.{wr32-mapped, wr32-mac}
use txgbe.Reg.Ram.{Ram, wr32-cell_self, wr32-cell_ne}
use txgbe.Mta.Table.{psr_mc_tbl, mark}
use txgbe.Mta.Hash.{table_bit, table_bit-mark, length-mark}
use txgbe.Sriov.Multicast.{hash_list, save_hashes, store_mta, mark_hash, mark_hashes}

-- One of the `n` entries of the message from the one at `i` on has the low twelve bits `v`.
abbrev pub asked : ℕ → ℕ → ℕ → List ℕ → Bool
asked v zero i msgbuf = false
asked v (suc n) i msgbuf = (hash_list msgbuf i % 4096 == v) || asked v n (i + 1) msgbuf

length-save_hashes :
    (n i : ℕ) (msgbuf hashes : List ℕ) → length (save_hashes n i msgbuf hashes) ≡ length hashes
unfolding save_hashes
length-save_hashes zero i msgbuf hashes = refl
length-save_hashes (suc n) i msgbuf hashes =
    length-save_hashes n (i + 1) msgbuf (set hashes i (hash_list msgbuf i))
    ∙ length-set hashes i (hash_list msgbuf i)

save_hashes_below :
    (n i j : ℕ) (msgbuf hashes : List ℕ)
    → j < i
    → get_or (save_hashes n i msgbuf hashes) j 0 ≡ get_or hashes j 0
unfolding save_hashes
save_hashes_below zero i j msgbuf hashes h = refl
save_hashes_below (suc n) i j msgbuf hashes h =
    save_hashes_below n (i + 1) j msgbuf (set hashes i (hash_list msgbuf i)) (omega arith)
    ∙ get_or-set_ne hashes i j (hash_list msgbuf i) 0 (λ e. omega arith)

pub save_hashes_within :
    (n i j : ℕ) (msgbuf hashes : List ℕ)
    → i ≤ j
    → j < i + n
    → j < length hashes
    → get_or (save_hashes n i msgbuf hashes) j 0 ≡ hash_list msgbuf j
unfolding save_hashes
save_hashes_within zero i j msgbuf hashes from to fits = absurd (omega arith)
save_hashes_within (suc n) i j msgbuf hashes from to fits =
    let next = set hashes i (hash_list msgbuf i) in
    let size = length-set hashes i (hash_list msgbuf i) in
    elim (ℕ_discrete i j) [
      | yes e ↦
          save_hashes_below n (i + 1) j msgbuf next (omega arith)
          ∙ ap (get_or next j) refl
          ∙ ap (λ (k : ℕ). get_or (set hashes k (hash_list msgbuf k)) j 0) e
          ∙ get_or-set_self hashes j (hash_list msgbuf j) 0 fits
      | no ne ↦
          save_hashes_within n (i + 1) j msgbuf next (omega arith) (omega arith)
            (omega (arith, size))
    ]

-- A hash counts modulo 4096.
mark_mod : (h : ℕ) (shadow : List ℕ) → mark h shadow ≡ mark (h % 4096) shadow
unfolding mark
mark_mod h shadow =
    let reg : h / 2 ^ 5 % 128 ≡ h % 4096 / 2 ^ 5 % 128 = omega arith in
    let low : h % 32 ≡ h % 4096 % 32 = omega arith in
    ap (λ (r : ℕ). set shadow r (bit_or (get_or shadow r 0) (2 ^ (h % 32)))) reg
    ∙ ap
        (λ (b : ℕ).
          set shadow (h % 4096 / 2 ^ 5 % 128)
            (bit_or (get_or shadow (h % 4096 / 2 ^ 5 % 128) 0) (2 ^ b)))
        low

module _ {D : Type 0} ⦃bus : Bus D⦄ where
  mark_hash-mac : (h : ℕ) (hw : Hw D) → (mark_hash h hw).1.mac.mta_shadow ≡ mark h hw.mac.mta_shadow
  unfolding mark_hash mark store_mta
  mark_hash-mac h hw =
      let r = h / 2 ^ 5 % 128 in
      let x = bit_or (get_or hw.mac.mta_shadow r 0) (2 ^ (h % 32)) in
      ap (λ (m : MacInfo). m.mta_shadow) (wr32-mac (psr_mc_tbl + r * 4) x (store_mta r x hw).1)

  mark_hash-mapped : (h : ℕ) (hw : Hw D) → (mark_hash h hw).1.mapped ≡ hw.mapped
  unfolding mark_hash mark store_mta
  mark_hash-mapped h hw =
      let r = h / 2 ^ 5 % 128 in
      let x = bit_or (get_or hw.mac.mta_shadow r 0) (2 ^ (h % 32)) in
      wr32-mapped (psr_mc_tbl + r * 4) x (store_mta r x hw).1

module _ {D : Type 0} ⦃bus : Bus D⦄ {cell : ℕ → D → ℕ} (ram : Ram bus cell) where
  -- The device is there, and its table of 128 words is what the shadow holds.
  abbrev pub InStep : Hw D → Type 0
  InStep hw =
      (hw.mapped ≡ true)
      × (length hw.mac.mta_shadow ≡ 128)
      × ((j : ℕ) → j < 128 → cell (psr_mc_tbl + j * 4) hw.dev ≡ get_or hw.mac.mta_shadow j 0)

  mark_hash-cell :
      (h j : ℕ) (hw : Hw D)
      → InStep hw
      → j < 128
      → cell (psr_mc_tbl + j * 4) (mark_hash h hw).1.dev ≡ get_or (mark h hw.mac.mta_shadow) j 0
  unfolding mark_hash mark store_mta
  mark_hash-cell h j hw (mapped, len, step) below =
      let r = h / 2 ^ 5 % 128 in
      let x = bit_or (get_or hw.mac.mta_shadow r 0) (2 ^ (h % 32)) in
      let hw1 = (store_mta r x hw).1 in
      elim (ℕ_discrete r j) [
        | yes e ↦
            ap (λ (k : ℕ). cell (psr_mc_tbl + k * 4) (wr32 (psr_mc_tbl + r * 4) x hw1).1.dev)
              (sym e)
            ∙ wr32-cell_self ram (psr_mc_tbl + r * 4) x hw1 mapped
            ∙ sym (get_or-set_self hw.mac.mta_shadow r x 0 (omega (arith, len)))
            ∙ ap (λ (k : ℕ). get_or (set hw.mac.mta_shadow r x) k 0) e
        | no ne ↦
            wr32-cell_ne ram (psr_mc_tbl + r * 4) (psr_mc_tbl + j * 4) x hw1 (λ e. ne (omega arith))
            ∙ step j below
            ∙ sym (get_or-set_ne hw.mac.mta_shadow r j x 0 ne)
      ]

  mark_hash-InStep : (h : ℕ) (hw : Hw D) → InStep hw → InStep (mark_hash h hw).1
  mark_hash-InStep h hw (mapped, len, step) =
      let after = mark_hash-mac h hw in
      (
        mark_hash-mapped h hw ∙ mapped,
        ap length after ∙ length-mark h hw.mac.mta_shadow ∙ len,
        λ j below.
            mark_hash-cell h j hw (mapped, len, step) below
            ∙ sym (ap (λ (s : List ℕ). get_or s j 0) after),
      )

  pub mark_hashes-InStep :
      (n i : ℕ) (hashes : List ℕ) (hw : Hw D) → InStep hw → InStep (mark_hashes n i hashes hw).1
  unfolding mark_hashes
  mark_hashes-InStep zero i hashes hw step = step
  mark_hashes-InStep (suc n) i hashes hw step =
      let h = get_or hashes i 0 in
      mark_hashes-InStep n (i + 1) hashes (mark_hash h hw).1 (mark_hash-InStep h hw step)

  pub mark_hashes-table_bit :
      (n i v : ℕ) (msgbuf hashes : List ℕ) (hw : Hw D)
      → InStep hw
      → v < 4096
      → ((j : ℕ) → i ≤ j → j < i + n → get_or hashes j 0 ≡ hash_list msgbuf j)
      → table_bit v (mark_hashes n i hashes hw).1.mac.mta_shadow
        ≡ (if asked v n i msgbuf then 1 else table_bit v hw.mac.mta_shadow)
  unfolding mark_hashes
  mark_hashes-table_bit zero i v msgbuf hashes hw step below same = refl
  mark_hashes-table_bit (suc n) i v msgbuf hashes hw step below same =
      let h = get_or hashes i 0 in
      let w = hash_list msgbuf i in
      let first : table_bit v (mark_hash h hw).1.mac.mta_shadow
          ≡ (if w % 4096 == v then 1 else table_bit v hw.mac.mta_shadow) =
        ap (table_bit v) (mark_hash-mac h hw)
        ∙ ap (λ (k : ℕ). table_bit v (mark k hw.mac.mta_shadow))
            (same i (omega arith) (omega arith))
        ∙ ap (table_bit v) (mark_mod w hw.mac.mta_shadow)
        ∙ table_bit-mark (w % 4096) v hw.mac.mta_shadow (omega arith) below step.1 in
      mark_hashes-table_bit n (i + 1) v msgbuf hashes (mark_hash h hw).1
        (mark_hash-InStep h hw step) below (λ j a b. same j (omega arith) (omega arith))
      ∙ ground (arith, first)
