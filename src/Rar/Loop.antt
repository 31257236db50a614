-- ===== src/Rar/Loop.antt =====
-- The loop over the new addresses, by induction on the list.
use txgbe.Base.{
  ℕ, zero, suc, ◌+◌, ◌-◌, ◌<◌, ◌≤◌, ◌^◌, min, ◌≡◌, ◌≢◌, ◌∙◌, refl, sym, ap, true, ltb, Bool-cases,
  List, [], ◌∷◌, length, get_or, ◌⊎◌, inl, inr, arith,
}
use mathlib.Core.Path.{subst}
use txgbe.Hw.{Hw, Bus}
use txgbe.Reg.{failed_read_reg}
use txgbe.Rar.Regs.{psr_mac_swc_ad_h, psr_mac_swc_ad_h_av, rar_low}
use txgbe.Rar.Entry.{RarDevice, written-Holds, written_others, high_word}
use txgbe.Rar.Fill.{Elsewhere}
use txgbe.Rar.Uc.{UcAddr, with_used, with_overflow, add_uc_addr, add_all, add_one32}
use txgbe.Rar.Add.{
  no_addr, filled, written-cell, add_uc_addr_room, add_uc_addr_full, HasAddr, Kept, HasAddr-before,
  HasAddr-after,
}

add_one32-small : (n : ℕ) → n + 1 < 2 ^ 32 → add_one32 n ≡ n + 1
add_one32-small n h = omega arith

module _ {D : Type 0} ⦃bus : Bus D⦄ {cell : ℕ → D → ℕ} {entry : ℕ → ℕ → D → ℕ}
    (ix : RarDevice bus cell entry) where
  -- The structure with the counters set and the device replaced.
  abbrev pub counted : ℕ → ℕ → D → Hw D → Hw D
  counted used over d hw = with_overflow over (with_used used (record hw { dev = d }))

  -- What `list` leaves, from entry `u` on: the counters, the new entries and the rest.
  abbrev pub Filled : List UcAddr → Hw D → Hw D → Type 0
  Filled addr_list hw after =
      let u = hw.addr_ctrl.rar_used_count in
      let room = hw.mac.num_rar_entries - u in
      (after
        ≡ counted (u + min (length addr_list) room)
            (hw.addr_ctrl.overflow_promisc + (length addr_list - room)) after.dev hw)
      × ((j : ℕ)
          → j < length addr_list
          → j < room
          → HasAddr ix (get_or addr_list j no_addr) (u + j) hw.dev after.dev)
      × ((i : ℕ) → (i < u) ⊎ (u + length addr_list ≤ i) → Kept ix i hw.dev after.dev)
      × ((b : ℕ) → Elsewhere ix b → cell b after.dev ≡ cell b hw.dev)

  -- The entries from `u` on do not read as all ones.
  abbrev pub Live : ℕ → Hw D → Type 0
  Live u hw =
      (i : ℕ)
      → u ≤ i
      → i < hw.mac.num_rar_entries
      → entry i psr_mac_swc_ad_h hw.dev ≢ failed_read_reg

  module _ (a : UcAddr) (hw : Hw D) where
    -- One address goes to entry `u`, and the rest of the list to the entries from `u + 1` on.
    abbrev next : Hw D
    next = with_used (hw.addr_ctrl.rar_used_count + 1) (record hw { dev = (filled a hw).dev })

    next-Kept :
        hw.mapped ≡ true → (j : ℕ) → j ≢ hw.addr_ctrl.rar_used_count → Kept ix j hw.dev next.dev
    next-Kept m j ne r =
        written_others ix hw.addr_ctrl.rar_used_count a.vmdq (rar_low a.addr)
          (high_word a.addr psr_mac_swc_ad_h_av) hw m j r ne

  module _ (a : UcAddr) (addr_list : List UcAddr) (hw after : Hw D) (m : hw.mapped ≡ true) where
    next-HasAddr :
        hw.addr_ctrl.rar_used_count < hw.mac.num_rar_entries
        → Live hw.addr_ctrl.rar_used_count hw
        → Filled addr_list (next a hw) after
        → (j : ℕ) → j < suc (length addr_list)
        → j < hw.mac.num_rar_entries - hw.addr_ctrl.rar_used_count
        → HasAddr ix
            (get_or (a ∷ addr_list) j no_addr)
            (hw.addr_ctrl.rar_used_count + j)
            hw.dev
            after.dev
    next-HasAddr room live (same, put, kept, out) zero hj hr =
        let u = hw.addr_ctrl.rar_used_count in
        let e : u ≡ u + 0 = omega arith in
        let here : HasAddr ix a u hw.dev (next a hw).dev =
          written-Holds ix u a.vmdq (rar_low a.addr) (high_word a.addr psr_mac_swc_ad_h_av) hw m
            (live u (omega arith) room) in
        subst (λ (i : ℕ). HasAddr ix a i hw.dev after.dev) e
          (HasAddr-after ix a u hw.dev (next a hw).dev after.dev (kept u (inl (omega arith))) here)
    next-HasAddr room live (same, put, kept, out) (suc j) hj hr =
        let u = hw.addr_ctrl.rar_used_count in
        let b = get_or addr_list j no_addr in
        let e : u + 1 + j ≡ u + suc j = omega arith in
        subst (λ (i : ℕ). HasAddr ix b i hw.dev after.dev) e
          (HasAddr-before ix b (u + 1 + j) hw.dev (next a hw).dev after.dev
            (next-Kept a hw m (u + 1 + j) (λ q. omega arith) psr_mac_swc_ad_h (λ q. omega arith))
            (put j (omega arith) (omega arith)))

    next-Filled :
        hw.addr_ctrl.rar_used_count < hw.mac.num_rar_entries
        → Live hw.addr_ctrl.rar_used_count hw
        → Filled addr_list (next a hw) after
        → Filled (a ∷ addr_list) hw after
    next-Filled room live (same, put, kept, out) =
        let u = hw.addr_ctrl.rar_used_count in
        let n = hw.mac.num_rar_entries in
        let o = hw.addr_ctrl.overflow_promisc in
        let len = length addr_list in
        let eu : u + 1 + min len (n - (u + 1)) ≡ u + min (suc len) (n - u) = omega arith in
        let eo : o + (len - (n - (u + 1))) ≡ o + (suc len - (n - u)) = omega arith in
        let narrow : (i : ℕ)
            → (i < u) ⊎ (u + suc len ≤ i)
            → ((i < u + 1) ⊎ (u + 1 + len ≤ i)) × (i ≢ u) =
          λ i far. elim far [
            | inl lo ↦ (inl (omega arith), λ e. omega arith)
            | inr hi ↦ (inr (omega arith), λ e. omega arith)
          ] in
        (
          same ∙ (λ i. counted (eu i) (eo i) after.dev hw),
          next-HasAddr room live (same, put, kept, out),
          λ i far r ne. kept i (narrow i far).0 r ne ∙ next-Kept a hw m i (narrow i far).1 r ne,
          λ b away.
              out b away
              ∙ written-cell u a.vmdq (rar_low a.addr) (high_word a.addr psr_mac_swc_ad_h_av) hw ix
                  b away,
        )

    -- An address without room is counted only.
    over-Filled :
        hw.mac.num_rar_entries ≤ hw.addr_ctrl.rar_used_count
        → Filled addr_list (with_overflow (hw.addr_ctrl.overflow_promisc + 1) hw) after
        → Filled (a ∷ addr_list) hw after
    over-Filled full (same, put, kept, out) =
        let u = hw.addr_ctrl.rar_used_count in
        let n = hw.mac.num_rar_entries in
        let o = hw.addr_ctrl.overflow_promisc in
        let len = length addr_list in
        let eu : u + min len (n - u) ≡ u + min (suc len) (n - u) = omega arith in
        let eo : o + 1 + (len - (n - u)) ≡ o + (suc len - (n - u)) = omega arith in
        let narrow : (i : ℕ) → (i < u) ⊎ (u + suc len ≤ i) → (i < u) ⊎ (u + len ≤ i) =
          λ i far. elim far [ inl lo ↦ inl lo | inr hi ↦ inr (omega arith) ] in
        (
          same ∙ (λ i. counted (eu i) (eo i) after.dev hw),
          λ j hj hr. absurd (omega arith),
          λ i far. kept i (narrow i far),
          out,
        )

  -- The whole loop.
  pub add_all-Filled :
      (addr_list : List UcAddr) (hw : Hw D)
      → hw.mapped ≡ true
      → hw.addr_ctrl.rar_used_count + length addr_list < 2 ^ 32
      → hw.addr_ctrl.overflow_promisc + length addr_list < 2 ^ 32
      → Live hw.addr_ctrl.rar_used_count hw
      → Filled addr_list hw (add_all addr_list hw).1
  unfolding add_all
  add_all-Filled [] hw m su so live =
      let u = hw.addr_ctrl.rar_used_count in
      let o = hw.addr_ctrl.overflow_promisc in
      let room = hw.mac.num_rar_entries - u in
      let eu : u ≡ u + min 0 room = omega arith in
      let eo : o ≡ o + (0 - room) = omega arith in
      (
        λ i. counted (eu i) (eo i) hw.dev hw,
        λ j hj hr. absurd (omega arith),
        λ i far r ne. refl,
        λ b away. refl,
      )
  add_all-Filled (a ∷ addr_list) hw m su so live =
      let u = hw.addr_ctrl.rar_used_count in
      let o = hw.addr_ctrl.overflow_promisc in
      elim (Bool-cases (ltb u hw.mac.num_rar_entries)) [
        | inl lo ↦
            let room : u < hw.mac.num_rar_entries = ground arith in
            let to = next a hw in
            let e : (add_uc_addr a.addr a.vmdq hw).1 ≡ to =
              add_uc_addr_room a hw room
              ∙ ap (λ (k : ℕ). with_used k (record hw { dev = (filled a hw).dev }))
                  (add_one32-small u (omega arith)) in
            let still : Live (u + 1) to = λ i lo hi q. live i (omega arith) hi (
              sym (next-Kept a hw m i (λ r. omega arith) psr_mac_swc_ad_h (λ r. omega arith))
              ∙ q) in
            subst (λ (h : Hw D). Filled (a ∷ addr_list) hw (add_all addr_list h).1) (sym e)
              (next-Filled a addr_list hw (add_all addr_list to).1 m room live
                (add_all-Filled addr_list to m (omega arith) (omega arith) still))
        | inr hi ↦
            let full : hw.mac.num_rar_entries ≤ u = ground arith in
            let to = with_overflow (o + 1) hw in
            let e : (add_uc_addr a.addr a.vmdq hw).1 ≡ to =
              add_uc_addr_full a hw full
              ∙ ap (λ (k : ℕ). with_overflow k hw) (add_one32-small o (omega arith)) in
            subst (λ (h : Hw D). Filled (a ∷ addr_list) hw (add_all addr_list h).1) (sym e)
              (over-Filled a addr_list hw (add_all addr_list to).1 m full
                (add_all-Filled addr_list to m (omega arith) (omega arith) live))
      ]
