-- ===== src/Rar/Find.antt =====
-- The search of src/txgbe_hw.c `txgbe_insert_mac_addr`.
use txgbe.Base.{
  ℕ, zero, suc, ◌+◌, ◌≤◌, ◌<◌, ◌%◌, ◌^◌, ◌≡◌, ◌≢◌, ◌∙◌, refl, sym, ap, bit_and, bit_and_low_half,
  ◌==◌, ◌&&◌, true, Bool-cases, List, ◌⊎◌, inl, inr, arith,
}
use mathlib.Core.Path.{subst}
use native.Mathlib.Decide.{ℕ_discrete}
use txgbe.Hw.{Hw, Bus}
use txgbe.Reg.{rd32, wr32}
use txgbe.Reg.Frame.{Same, Same-trans, wr32-Same, rd32-Same}
use txgbe.Reg.Indexed.{select-Shows, rd32-Shows, rd32_shown, rd32-entry, wr32-entry_reg}
use txgbe.Rar.Regs.{
  psr_mac_swc_ad_l, psr_mac_swc_ad_h, psr_mac_swc_idx, psr_mac_swc_ad_h_av, rar_low, rar_high,
}
use txgbe.Rar.Entry.{RarDevice}
use txgbe.Rar.Add.{Kept}
use txgbe.Rar.Insert.{find_rar, no_empty_rar_found}

-- The words of entry `i` are the address's.
abbrev pub HasWords : {D : Type 0} → (ℕ → ℕ → D → ℕ) → List ℕ → ℕ → D → Type 0
HasWords entry addr i d =
    (entry i psr_mac_swc_ad_l d ≡ rar_low addr)
    × (entry i psr_mac_swc_ad_h d % 2 ^ 16 ≡ rar_high addr % 2 ^ 16)

-- The valid bit of entry `i` is clear.
abbrev pub IsFree : {D : Type 0} → (ℕ → ℕ → D → ℕ) → ℕ → D → Type 0
IsFree entry i d = bit_and psr_mac_swc_ad_h_av (entry i psr_mac_swc_ad_h d) ≡ 0

-- Entry `i` does not pass the address.
abbrev pub Lacks : {D : Type 0} → (ℕ → ℕ → D → ℕ) → List ℕ → ℕ → D → Type 0
Lacks entry addr i d =
    IsFree entry i d
    ⊎ ((entry i psr_mac_swc_ad_h d % 2 ^ 16 ≢ rar_high addr)
        ⊎ (entry i psr_mac_swc_ad_l d ≢ rar_low addr))

module _ {D : Type 0} ⦃bus : Bus D⦄ {cell : ℕ → D → ℕ} {entry : ℕ → ℕ → D → ℕ}
    (ix : RarDevice bus cell entry) (addr : List ℕ) where
  -- The search from `rar` on with `n` entries left stops at an entry with the address's words, or
  -- passes over all, which lack the address; the empty entry it gives is free; it changes no entry.
  abbrev pub Searched : ℕ → ℕ → ℕ → Hw D → (ℕ × ℕ) × Hw D → Type 0
  Searched n rar first hw out =
      (((out.0.0 ≡ rar + n) × ((i : ℕ) → rar ≤ i → i < rar + n → Lacks entry addr i hw.dev))
        ⊎ ((out.0.0 < rar + n) × HasWords entry addr (out.0.0) hw.dev))
      × ((out.0.1 ≡ first) ⊎ ((out.0.1 < rar + n) × IsFree entry (out.0.1) hw.dev))
      × Same hw out.1
      × ((i : ℕ) → Kept ix i hw.dev out.1.dev)

  -- The state after the reads of one entry.
  abbrev high_read : ℕ → Hw D → Hw D
  high_read rar hw = (rd32 psr_mac_swc_ad_h (wr32 psr_mac_swc_idx rar hw).1).1

  abbrev low_read : ℕ → Hw D → Hw D
  low_read rar hw = (rd32 psr_mac_swc_ad_l (high_read rar hw)).1

  module _ (rar : ℕ) (hw : Hw D) where
    high_read-Same : Same hw (high_read rar hw)
    high_read-Same =
        let hw1 = (wr32 psr_mac_swc_idx rar hw).1 in
        Same-trans hw hw1 (high_read rar hw) (wr32-Same psr_mac_swc_idx hw rar)
          (rd32-Same psr_mac_swc_ad_h hw1)

    high_read-Kept : (i : ℕ) → Kept ix i hw.dev (high_read rar hw).dev
    high_read-Kept i r out =
        rd32-entry ix psr_mac_swc_ad_h i r (wr32 psr_mac_swc_idx rar hw).1
        ∙ wr32-entry_reg ix psr_mac_swc_idx rar i r hw out

    low_read-Same : Same hw (low_read rar hw)
    low_read-Same =
        Same-trans hw (high_read rar hw) (low_read rar hw) high_read-Same
          (rd32-Same psr_mac_swc_ad_l (high_read rar hw))

    low_read-Kept : (i : ℕ) → Kept ix i hw.dev (low_read rar hw).dev
    low_read-Kept i r out =
        rd32-entry ix psr_mac_swc_ad_l i r (high_read rar hw) ∙ high_read-Kept i r out

    module _ (m : hw.mapped ≡ true) where
      high_value :
          (rd32 psr_mac_swc_ad_h (wr32 psr_mac_swc_idx rar hw).1).0
          ≡ entry rar psr_mac_swc_ad_h hw.dev
      high_value =
          let hw1 = (wr32 psr_mac_swc_idx rar hw).1 in
          rd32_shown ix psr_mac_swc_ad_h rar hw1 refl (select-Shows ix rar hw m)
          ∙ wr32-entry_reg ix psr_mac_swc_idx rar rar psr_mac_swc_ad_h hw (λ e. omega arith)

      low_value : (rd32 psr_mac_swc_ad_l (high_read rar hw)).0 ≡ entry rar psr_mac_swc_ad_l hw.dev
      low_value =
          let hw1 = (wr32 psr_mac_swc_idx rar hw).1 in
          rd32_shown ix psr_mac_swc_ad_l rar (high_read rar hw) refl
            (rd32-Shows ix psr_mac_swc_ad_h rar hw1 (select-Shows ix rar hw m))
          ∙ high_read-Kept rar psr_mac_swc_ad_l (λ e. omega arith)

  -- What an entry lacks on a device with the same entries.
  Lacks-Kept : (i : ℕ) (d e : D) → Kept ix i d e → Lacks entry addr i e → Lacks entry addr i d
  Lacks-Kept i d e kept lacks = elim lacks [
    | inl free ↦
        inl
          (ap (bit_and psr_mac_swc_ad_h_av) (sym (kept psr_mac_swc_ad_h (λ q. omega arith))) ∙ free)
    | inr (inl high) ↦ inr (
        inl
          (λ q. high (ap (λ (x : ℕ). x % 2 ^ 16) (kept psr_mac_swc_ad_h (λ q1. omega arith)) ∙ q)))
    | inr (inr low) ↦ inr (inr (λ q. low (kept psr_mac_swc_ad_l (λ q1. omega arith) ∙ q)))
  ]

  -- The search goes on from a state with the same entries, past one that lacks the address.
  on :
      (n rar first first' : ℕ) (hw hw' : Hw D) (out : (ℕ × ℕ) × Hw D)
      → Same hw hw'
      → ((i : ℕ) → Kept ix i hw.dev hw'.dev)
      → Lacks entry addr rar hw.dev
      → (first' ≡ first) ⊎ ((first' ≡ rar) × IsFree entry rar hw.dev)
      → Searched n (rar + 1) first' hw' out
      → Searched (suc n) rar first hw out
  on n rar first first' hw hw' out same kept lacks from (where_at, empty, same', kept') = (
    elim where_at [
      | inl (e, others) ↦ inl (
        e ∙ omega arith,
        λ i lo hi. elim (ℕ_discrete rar i) [
          | yes q ↦ subst (λ (k : ℕ). Lacks entry addr k hw.dev) q lacks
          | no ne ↦ Lacks-Kept i hw.dev hw'.dev (kept i) (others i (omega arith) (omega arith))
        ],
      )
      | inr (lt, (l, h)) ↦ inr (
        omega arith,
        (
          sym (kept out.0.0 psr_mac_swc_ad_l (λ e. omega arith)) ∙ l,
          ap (λ (x : ℕ). x % 2 ^ 16) (sym (kept out.0.0 psr_mac_swc_ad_h (λ e. omega arith))) ∙ h,
        ),
      )
    ],
    elim empty [
      | inl e ↦ elim from [
        | inl p ↦ inl (e ∙ p)
        | inr (p, free) ↦
            inr (omega (arith, e, p), subst (λ (k : ℕ). IsFree entry k hw.dev) (sym (e ∙ p)) free)
      ]
      | inr (lt, free) ↦ inr (
        omega arith,
        ap (bit_and psr_mac_swc_ad_h_av) (sym (kept out.0.1 psr_mac_swc_ad_h (λ q. omega arith)))
            ∙ free,
      )
    ],
    Same-trans hw hw' out.1 same same',
    λ i r ne. kept' i r ne ∙ kept i r ne,
  )

  -- The entry at hand matches.
  found :
      (n rar first : ℕ) (hw : Hw D)
      → hw.mapped ≡ true
      → bit_and (rd32 psr_mac_swc_ad_h (wr32 psr_mac_swc_idx rar hw).1).0 0xffff ≡ rar_high addr
      → (rd32 psr_mac_swc_ad_l (high_read rar hw)).0 ≡ rar_low addr
      → Searched (suc n) rar first hw ((rar, first), low_read rar hw)
  found n rar first hw m high low =
      let v = entry rar psr_mac_swc_ad_h hw.dev in
      let same : v % 2 ^ 16 ≡ rar_high addr =
        sym (bit_and_low_half v)
        ∙ ap (λ (x : ℕ). bit_and x 0xffff) (sym (high_value rar hw m))
        ∙ high in
      (
        inr (omega arith, (sym (low_value rar hw m) ∙ low, omega (arith, same))),
        inl refl,
        low_read-Same rar hw,
        low_read-Kept rar hw,
      )

  pub find_rar-Searched :
      (n rar first : ℕ) (hw : Hw D)
      → hw.mapped ≡ true
      → Searched n rar first hw (find_rar addr n rar first hw)
  unfolding find_rar
  find_rar-Searched zero rar first hw m =
      let e : rar ≡ rar + 0 = omega arith in
      (inl (e, λ i lo hi. absurd (omega arith)), inl refl, refl, λ i r ne. refl)
  find_rar-Searched (suc n) rar first hw m =
      let high = (rd32 psr_mac_swc_ad_h (wr32 psr_mac_swc_idx rar hw).1).0 in
      let low = (rd32 psr_mac_swc_ad_l (high_read rar hw)).0 in
      let hw2 = high_read rar hw in
      let hw3 = low_read rar hw in
      let here = find_rar addr (suc n) rar first hw in
      let m2 = ap (λ (t : Hw D). t.mapped) (high_read-Same rar hw) ∙ m in
      let m3 = ap (λ (t : Hw D). t.mapped) (low_read-Same rar hw) ∙ m in
      let ends = λ (out : (ℕ × ℕ) × Hw D). Searched (suc n) rar first hw out in
      elim (Bool-cases ((bit_and psr_mac_swc_ad_h_av high == 0) && (first == no_empty_rar_found))) [
        | inl t ↦
            let e : here ≡ find_rar addr n (rar + 1) rar hw2 = ground (arith, t) in
            let free : IsFree entry rar hw.dev =
              ap (bit_and psr_mac_swc_ad_h_av) (sym (high_value rar hw m)) ∙ ground (arith, t) in
            subst ends (sym e) (
              on n rar first rar hw hw2 _ (high_read-Same rar hw) (high_read-Kept rar hw) (inl free)
                (inr (refl, free)) (find_rar-Searched n (rar + 1) rar hw2 m2))
        | inr f ↦ elim (Bool-cases (bit_and high 0xffff == rar_high addr)) [
          | inl h ↦ elim (Bool-cases (low == rar_low addr)) [
            | inl l ↦
                let e : here ≡ ((rar, first), hw3) = ground (arith, f, h, l) in
                subst ends (sym e) (found n rar first hw m (ground (arith, h)) (ground (arith, l)))
            | inr l ↦
                let e : here ≡ find_rar addr n (rar + 1) first hw3 = ground (arith, f, h, l) in
                let other : low ≢ rar_low addr = λ q. ground (arith, l, q) in
                subst ends (sym e) (
                  on n rar first first hw hw3 _ (low_read-Same rar hw) (low_read-Kept rar hw)
                    (inr (inr (λ q. other (low_value rar hw m ∙ q)))) (inl refl)
                    (find_rar-Searched n (rar + 1) first hw3 m3))
          ]
          | inr h ↦
              let e : here ≡ find_rar addr n (rar + 1) first hw2 = ground (arith, f, h) in
              let other : bit_and high 0xffff ≢ rar_high addr = λ q. ground (arith, h, q) in
              let value = entry rar psr_mac_swc_ad_h hw.dev in
              subst ends (sym e) (
                on n rar first first hw hw2 _ (high_read-Same rar hw) (high_read-Kept rar hw)
                  (inr (
                    inl (λ q. other (
                      ap (λ (x : ℕ). bit_and x 0xffff) (high_value rar hw m)
                      ∙ bit_and_low_half value
                      ∙ q))))
                  (inl refl) (find_rar-Searched n (rar + 1) first hw2 m2))
        ]
      ]
