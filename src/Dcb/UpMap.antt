-- ===== src/Dcb/UpMap.antt =====
-- What the unpacking of src/txgbe_dcb.c says of priorities: `txgbe_dcb_get_tc_from_up` and
-- `txgbe_dcb_unpack_pfc_cee`.
use txgbe.Base.{
  ℕ, zero, suc, ◌+◌, ◌-◌, ◌%◌, ◌^◌, ◌≤◌, ◌<◌, ◌≡◌, ◌≢◌, refl, ap, ◌∙◌, arith, max, bit, bit_or,
  bit-bit_or, bit-two_pow, bit-le-one, bit-zero, bit-cases, bit_and_comm, bit_and-two_pow_zero,
  bit_and-two_pow_pos, two_pow-lt, min, List, [], ◌∷◌, get_or, length, true, false, nonzero,
  if◌then◌else◌, ◌==◌, inl, inr,
}
use native.Mathlib.Nat.{mod-eq_of_lt}
use native.Mathlib.Decide.{ℕ_discrete}
use txgbe.Dcb.Config.{TcConfig, DcbConfig, Direction, path}
use txgbe.Dcb.Unpack.{
  no_tc, serves, search_tc, get_tc_from_up, pfc_loop, unpack_pfc_cee, is_disabled,
}

-- The bitmap of priorities of class `tc`.
abbrev pub bitmap : DcbConfig → Direction → ℕ → ℕ
bitmap cfg direction tc = (path direction (get_or cfg.tc_config tc no_tc)).up_to_tc_bitmap

module _ (cfg : DcbConfig) (direction : Direction) (up : ℕ) where
  serves_of_bit :
      (tc : ℕ) → bit up (bitmap cfg direction tc) ≡ 1 → serves cfg direction (2 ^ up) tc ≡ true
  serves_of_bit tc h =
      let b = bitmap cfg direction tc in
      ground (arith, bit_and_comm (2 ^ up) b, bit_and-two_pow_pos b up h)

  not_serves_of_bit :
      (tc : ℕ) → bit up (bitmap cfg direction tc) ≡ 0 → serves cfg direction (2 ^ up) tc ≡ false
  not_serves_of_bit tc h =
      let b = bitmap cfg direction tc in
      ground (arith, bit_and_comm (2 ^ up) b, bit_and-two_pow_zero b up h)

  -- Class `t` is the highest up to `n` that takes the priority, or there is none and it is 0.
  pub record IsHighest (n t : ℕ) : Type 0 where
    pub within : t ≤ n
    pub takes : t ≢ 0 → bit up (bitmap cfg direction t) ≡ 1
    pub none_above : (tc : ℕ) → t < tc → tc ≤ n → bit up (bitmap cfg direction tc) ≡ 0

  search_tc-IsHighest : (n : ℕ) → IsHighest n (search_tc cfg direction (2 ^ up) n)
  unfolding search_tc
  search_tc-IsHighest zero = record {
    within = omega arith;
    takes = λ ne. absurd (ne refl);
    none_above = λ tc p q. absurd (omega arith);
  }
  search_tc-IsHighest (suc n) = elim (bit-cases up (bitmap cfg direction (suc n))) [
    | inr one ↦ rw (serves_of_bit (suc n) one) (record {
      within = omega arith;
      takes = λ ne. one;
      none_above = λ tc p q. absurd (omega arith);
    })
    | inl zero_bit ↦
        let ih = search_tc-IsHighest n in
        rw (not_serves_of_bit (suc n) zero_bit) (record {
          within = omega (arith, ih.within);
          takes = ih.takes;
          none_above = λ tc p q. elim (ℕ_discrete tc (suc n)) [
            | yes e ↦ ap (λ (t : ℕ). bit up (bitmap cfg direction t)) e ∙ zero_bit
            | no ne ↦ ih.none_above tc p (omega arith)
          ];
        })
  ]

-- `txgbe_dcb_get_tc_from_up` gives, of the classes below `pg_tcs`, the highest whose bitmap has the
-- priority, and 0 where no class above 0 has it.
pub get_tc_from_up-IsHighest :
    (cfg : DcbConfig) (direction : Direction) (up : ℕ)
    → up < 8
    → IsHighest cfg direction up (cfg.pg_tcs - 1) (get_tc_from_up cfg direction up)
unfolding get_tc_from_up
get_tc_from_up-IsHighest cfg direction up lt =
    let e : 2 ^ up % 2 ^ 8 ≡ 2 ^ up = mod-eq_of_lt (two_pow-lt lt) in
    rw (e, skip cfg.pg_tcs) (search_tc-IsHighest cfg direction up (cfg.pg_tcs - 1))
  where
    skip :
        (n : ℕ)
        → (if nonzero n then search_tc cfg direction (2 ^ up) (n - 1) else 0)
          ≡ search_tc cfg direction (2 ^ up) (n - 1)
    skip zero = unfold search_tc in refl
    skip (suc n) = ground arith

module _ (tcs : List TcConfig) where
  abbrev has_pfc : ℕ → ℕ
  has_pfc tc = if is_disabled (get_or tcs tc no_tc).pfc then 0 else 1

  marked : ℕ → ℕ → ℕ → ℕ
  marked tc up acc = if is_disabled (get_or tcs tc no_tc).pfc then acc else bit_or acc (2 ^ up)

  bit-marked :
      (k tc up acc : ℕ)
      → bit k (marked tc up acc) ≡ max (bit k acc) (min (has_pfc tc) (if k == up then 1 else 0))
  unfolding marked
  bit-marked k tc up acc =
      ground (arith, bit-bit_or k acc (2 ^ up), bit-two_pow k up, bit-le-one k acc)

  pfc_loop-before :
      (prios : List ℕ) (k up acc : ℕ) → k < up → bit k (pfc_loop tcs prios up acc) ≡ bit k acc
  unfolding pfc_loop marked
  pfc_loop-before [] k up acc h = refl
  pfc_loop-before (tc ∷ prios) k up acc h =
      pfc_loop-before prios k (up + 1) (marked tc up acc) (omega arith)
      ∙ ground (arith, bit-marked k tc up acc)

  pfc_loop-at :
      (prios : List ℕ) (i k up acc : ℕ)
      → i < length prios
      → k ≡ up + i
      → bit k acc ≡ 0
      → bit k (pfc_loop tcs prios up acc) ≡ has_pfc (get_or prios i 0)
  unfolding pfc_loop marked
  pfc_loop-at [] i k up acc h e z = absurd (omega arith)
  pfc_loop-at (tc ∷ prios) zero k up acc h e z =
      pfc_loop-before prios k (up + 1) (marked tc up acc) (omega arith)
      ∙ ground (arith, bit-marked k tc up acc)
  pfc_loop-at (tc ∷ prios) (suc i) k up acc h e z =
      pfc_loop-at prios i k (up + 1) (marked tc up acc) (omega arith) (omega arith)
        (ground (arith, bit-marked k tc up acc))

-- Bit `up` of the mask that `txgbe_dcb_unpack_pfc_cee` makes is set exactly when the class that the
-- map gives to priority `up` has flow control, for every priority of the map.
pub bit-unpack_pfc_cee :
    (cfg : DcbConfig) (prio_map : List ℕ) (up : ℕ)
    → up < length prio_map
    → bit up (unpack_pfc_cee cfg prio_map)
      ≡ (if is_disabled (get_or cfg.tc_config (get_or prio_map up 0) no_tc).pfc then 0 else 1)
unfolding unpack_pfc_cee
bit-unpack_pfc_cee cfg prio_map up h =
    pfc_loop-at cfg.tc_config prio_map up up 0 0 h (omega arith) (bit-zero up)
