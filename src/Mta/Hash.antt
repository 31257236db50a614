-- ===== src/Mta/Hash.antt =====
-- Which bits of the multicast table are set: src/txgbe_hw.c `txgbe_update_mc_addr_list`.
use txgbe.Base.{
  ℕ, zero, suc, ◌+◌, ◌*◌, ◌/◌, ◌%◌, ◌^◌, ◌<◌, ◌≡◌, ◌≢◌, ◌∙◌, refl, sym, ap, ◌==◌, ◌||◌, Bool, true,
  false, if◌then◌else◌, bit, bit_or, bit-bit_or, bit-two_pow, bit-le-one, bit-zero, bit_and,
  bit_and-lt, bit_and_comm, List, [], ◌∷◌, length, get_or, set, get_or-set_self, get_or-set_ne,
  length-set, arith,
}
use mathlib.Core.List.{map}
use native.Mathlib.Decide.{ℕ_discrete}
use txgbe.Hw.{Hw, Bus, success}
use txgbe.Reg.{rd32, not32, shl32}
use txgbe.Reg.Ram.{Ram, rd32-cell, wr32-cell_ne}
use txgbe.Reg.Sweep.{sweep, sweep_value}
use txgbe.Mta.Table.{
  psr_mc_tbl, psr_ctl, psr_ctl_mo, psr_ctl_mfe, psr_ctl_mo_shift, mta_window, mta_vector, mark,
  set_mta, set_all, start_update, enable_mta, update_mc_addr_list,
}

-- Bit `v` of a table of 128 words.
abbrev pub table_bit : ℕ → List ℕ → ℕ
table_bit v shadow = bit (v % 32) (get_or shadow (v / 32) 0)

-- Some address of the list has the vector `v`.
abbrev pub hits : ℕ → ℕ → List (List ℕ) → Bool
hits mc_filter_type v [] = false
hits mc_filter_type v (mc_addr ∷ mc_addr_list) =
    (mta_vector mc_filter_type mc_addr == v) || hits mc_filter_type v mc_addr_list

mta_vector-lt : (mc_filter_type : ℕ) (mc_addr : List ℕ) → mta_vector mc_filter_type mc_addr < 4096
unfolding mta_vector
mta_vector-lt mc_filter_type mc_addr =
    let w = mta_window mc_filter_type (get_or mc_addr 4 0) (get_or mc_addr 5 0) in
    omega (arith, bit_and_comm w 0xfff, bit_and-lt 12 0xfff w (omega arith))

pub length-mark : (w : ℕ) (shadow : List ℕ) → length (mark w shadow) ≡ length shadow
unfolding mark
length-mark w shadow = length-set shadow (w / 32 % 128) _

pub table_bit-mark :
    (w v : ℕ) (shadow : List ℕ)
    → w < 4096
    → v < 4096
    → length shadow ≡ 128
    → table_bit v (mark w shadow) ≡ (if w == v then 1 else table_bit v shadow)
unfolding mark
table_bit-mark w v shadow hw hv len =
    let r = w / 32 % 128 in
    let x = bit_or (get_or shadow r 0) (2 ^ (w % 32)) in
    elim (ℕ_discrete r (v / 32)) [
      | yes e ↦
          ap (λ (i : ℕ). bit (v % 32) (get_or (set shadow r x) i 0)) (sym e)
          ∙ ap (bit (v % 32)) (get_or-set_self shadow r x 0 (omega (arith, len)))
          ∙ ground (
            arith,
            e,
            bit-bit_or (v % 32) (get_or shadow r 0) (2 ^ (w % 32)),
            bit-two_pow (v % 32) (w % 32),
            bit-le-one (v % 32) (get_or shadow r 0),
            ap (λ (i : ℕ). bit (v % 32) (get_or shadow i 0)) e,
          )
      | no ne ↦ ap (bit (v % 32)) (get_or-set_ne shadow r (v / 32) x 0 ne) ∙ ground (arith, ne)
    ]

module _ {D : Type 0} (v : ℕ) (below : v < 4096) where
  set_all-table_bit :
      (mc_addr_list : List (List ℕ)) (hw : Hw D)
      → length hw.mac.mta_shadow ≡ 128
      → table_bit v (set_all mc_addr_list hw).1.mac.mta_shadow
        ≡ (if hits hw.mac.mc_filter_type v mc_addr_list then 1 else table_bit v hw.mac.mta_shadow)
  unfolding set_all set_mta
  set_all-table_bit [] hw len = refl
  set_all-table_bit (mc_addr ∷ mc_addr_list) hw len =
      let w = mta_vector hw.mac.mc_filter_type mc_addr in
      set_all-table_bit mc_addr_list (set_mta mc_addr hw).1 (length-mark w hw.mac.mta_shadow ∙ len)
      ∙ ground (
        arith,
        table_bit-mark w v hw.mac.mta_shadow (mta_vector-lt hw.mac.mc_filter_type mc_addr) below
            len,
      )

get_or-map_const : (xs : List ℕ) (i z : ℕ) → get_or (map (λ _. z) xs) i z ≡ z
get_or-map_const [] i z = refl
get_or-map_const (x ∷ xs) zero z = refl
get_or-map_const (x ∷ xs) (suc i) z = get_or-map_const xs i z

length-map_const : (xs : List ℕ) (z : ℕ) → length (map (λ _. z) xs) ≡ length xs
length-map_const [] z = refl
length-map_const (x ∷ xs) z = ap suc (length-map_const xs z)

length-cleared :
    (clear : Bool) (xs : List ℕ) → length (if clear then map (λ _. 0) xs else xs) ≡ length xs
length-cleared true xs = length-map_const xs 0
length-cleared false xs = refl

table_bit-cleared :
    (v : ℕ) (clear : Bool) (xs : List ℕ)
    → table_bit v (if clear then map (λ _. 0) xs else xs) ≡ (if clear then 0 else table_bit v xs)
table_bit-cleared v true xs = ap (bit (v % 32)) (get_or-map_const xs (v / 32) 0) ∙ bit-zero (v % 32)
table_bit-cleared v false xs = refl

-- The loop over the addresses leaves the device and the sizes.
set_all-keeps :
    {D : Type 0} (mc_addr_list : List (List ℕ)) (hw : Hw D)
    → ((set_all mc_addr_list hw).1.mapped ≡ hw.mapped)
      × ((set_all mc_addr_list hw).1.mac.mcft_size ≡ hw.mac.mcft_size)
unfolding set_all set_mta
set_all-keeps [] hw = (refl, refl)
set_all-keeps (mc_addr ∷ mc_addr_list) hw = set_all-keeps mc_addr_list (set_mta mc_addr hw).1

module _ {D : Type 0} ⦃bus : Bus D⦄ {cell : ℕ → D → ℕ} (ram : Ram bus cell) where
  enable_mta-cell_ne :
      (b : ℕ) (hw : Hw D) → psr_ctl ≢ b → cell b (enable_mta hw).1.dev ≡ cell b hw.dev
  unfolding enable_mta
  enable_mta-cell_ne b hw ne =
      let hw1 = (rd32 psr_ctl hw).1 in
      let v =
        bit_or (bit_and (rd32 psr_ctl hw).0 (not32 (bit_or psr_ctl_mo psr_ctl_mfe)))
          (bit_or psr_ctl_mfe (shl32 hw.mac.mc_filter_type psr_ctl_mo_shift)) in
      ground (arith, rd32-cell ram psr_ctl b hw, wr32-cell_ne ram psr_ctl b v hw1 ne)

  -- On a mapped device whose registers hold what was written, with a table and a shadow of 128
  -- words, `txgbe_update_mc_addr_list` succeeds, and afterwards each of the 4096 bits of the table is
  -- set when some address of the list hashes to it, and is otherwise clear when the call was to
  -- clear the table, else what it was in the shadow.
  pub update_mc_addr_list_lem :
      (mc_addr_list : List (List ℕ)) (clear : Bool) (v : ℕ) (hw : Hw D)
      → hw.mapped ≡ true
      → hw.mac.mcft_size ≡ 128
      → length hw.mac.mta_shadow ≡ 128
      → v < 4096
      → let after = update_mc_addr_list mc_addr_list clear hw in
        (after.0 ≡ success)
        × (bit (v % 32) (cell (psr_mc_tbl + v / 32 * 4) after.1.dev) ≡ (
            if hits hw.mac.mc_filter_type v mc_addr_list
            then 1
            else if clear
            then 0
            else table_bit v hw.mac.mta_shadow))
  unfolding update_mc_addr_list start_update
  update_mc_addr_list_lem mc_addr_list clear v hw mapped size len below =
      let hw1 = (start_update (length mc_addr_list) clear hw).1 in
      let hw2 = (set_all mc_addr_list hw1).1 in
      let kept = set_all-keeps mc_addr_list hw1 in
      let word = λ (i : ℕ). get_or hw2.mac.mta_shadow i 0 in
      let n = hw2.mac.mcft_size in
      let addr : ℕ → ℕ = λ i. psr_mc_tbl + i * 4 in
      let hw3 = sweep addr word n hw2 in
      let sizes : n ≡ 128 = kept.1 ∙ size in
      let value : cell (addr (v / 32)) (enable_mta hw3).1.dev ≡ word (v / 32) =
        enable_mta-cell_ne (addr (v / 32)) hw3 (λ e. omega arith)
        ∙ sweep_value addr word n ram (v / 32) hw2 (kept.0 ∙ mapped) (omega (arith, sizes))
            (λ k h e. omega arith) in
      (
        refl,
        ap (bit (v % 32)) value
            ∙ set_all-table_bit v below mc_addr_list hw1
                (length-cleared clear hw.mac.mta_shadow ∙ len)
            ∙ ap (λ (b : ℕ). if hits hw.mac.mc_filter_type v mc_addr_list then 1 else b)
                (table_bit-cleared v clear hw.mac.mta_shadow),
      )
