-- ===== src/Dcb/Fields.antt =====
-- The fields of the arbiters' registers, src/txgbe_dcb.c.
use txgbe.Base.{
  ℕ, ◌-◌, ◌*◌, ◌<◌, ◌≤◌, ◌^◌, ◌≡◌, ◌∙◌, ap, ltb, ◌==◌, ◌&&◌, ◌||◌, Bool, if◌then◌else◌, bit, bit_or,
  bit-bit_or, bit-le-one, bit_above, bit-shift, bit-two_pow, arith,
}
use txgbe.Reg.{shl32}
use txgbe.Dcb.Config.{Tsa}
use txgbe.Dcb.Arbiter.{rx_arb_value, tx_desc_value, tx_data_value, is_strict, is_group_strict}

bit-shl_12 : (k x : ℕ) → x < 2 ^ 16 → bit k (shl32 x 12) ≡ (if ltb k 12 then 0 else bit (k - 12) x)
bit-shl_12 k x small =
    let e : shl32 x 12 ≡ x * 2 ^ 12 = omega arith in ap (bit k) e ∙ bit-shift k 12 x

bit-shl_9 : (k x : ℕ) → x < 2 ^ 3 → bit k (shl32 x 9) ≡ (if ltb k 9 then 0 else bit (k - 9) x)
bit-shl_9 k x small = let e : shl32 x 9 ≡ x * 2 ^ 9 = omega arith in ap (bit k) e ∙ bit-shift k 9 x

-- The fields without the two strict bits.
abbrev pub fields : ℕ → ℕ → ℕ → ℕ → ℕ
fields refill max bwg_id k =
    if ltb k 9
    then bit k refill
    else if ltb k 12
    then bit (k - 9) bwg_id
    else if ltb k 28
    then bit (k - 12) max
    else 0

module _ (refill max bwg_id k : ℕ) (refill_fits : refill < 2 ^ 9) (max_fits : max < 2 ^ 16)
    (bwg_fits : bwg_id < 2 ^ 3) where
  bits_packed :
      bit k (bit_or (bit_or refill (shl32 max 12)) (shl32 bwg_id 9)) ≡ fields refill max bwg_id k
  bits_packed = ground (
    arith,
    bit-bit_or k (bit_or refill (shl32 max 12)) (shl32 bwg_id 9),
    bit-bit_or k refill (shl32 max 12),
    bit-shl_12 k max max_fits,
    bit-shl_9 k bwg_id bwg_fits,
    λ (h : 9 ≤ k). bit_above 9 k refill refill_fits h,
    λ (h : 3 ≤ k - 9). bit_above 3 (k - 9) bwg_id bwg_fits h,
    λ (h : 16 ≤ k - 12). bit_above 16 (k - 12) max max_fits h,
    bit-le-one k refill,
    bit-le-one (k - 9) bwg_id,
    bit-le-one (k - 12) max,
  )

module _ (refill max bwg_id k : ℕ) (refill_fits : refill < 2 ^ 9) (max_fits : max < 2 ^ 16)
    (bwg_fits : bwg_id < 2 ^ 3) (tsa : Tsa) where
  -- For a refill of 9 bits, a maximum of 16 and a group of 3, the values for the three arbiters hold
  -- the refill in bits 0 to 8, the group in bits 9 to 11 and the maximum in bits 12 to 27, with none
  -- overlapping; bit 31 is on exactly for strict priority, bit 30 exactly for group strict
  -- priority and never for the receive arbiter, and every other bit is off.
  pub arb_value-fields :
      (bit k (rx_arb_value refill max bwg_id tsa)
        ≡ (if k == 31 && is_strict tsa then 1 else fields refill max bwg_id k))
      × (bit k (tx_desc_value refill max bwg_id tsa) ≡ (
          if (k == 31 && is_strict tsa) || (k == 30 && is_group_strict tsa)
          then 1
          else fields refill max bwg_id k))
      × (bit k (tx_data_value refill max bwg_id tsa) ≡ (
          if (k == 31 && is_strict tsa) || (k == 30 && is_group_strict tsa)
          then 1
          else fields refill max bwg_id k))
  unfolding rx_arb_value tx_desc_value tx_data_value
  arb_value-fields =
      let reg = bit_or (bit_or refill (shl32 max 12)) (shl32 bwg_id 9) in
      let reg' = bit_or (bit_or (shl32 max 12) refill) (shl32 bwg_id 9) in
      let packed = bits_packed refill max bwg_id k refill_fits max_fits bwg_fits in
      let packed' : bit k reg' ≡ fields refill max bwg_id k = omega (
        arith,
        packed,
        bit-bit_or k (bit_or refill (shl32 max 12)) (shl32 bwg_id 9),
        bit-bit_or k refill (shl32 max 12),
        bit-bit_or k (bit_or (shl32 max 12) refill) (shl32 bwg_id 9),
        bit-bit_or k (shl32 max 12) refill,
      ) in
      let flag : (n x : ℕ) (on : Bool)
          → bit k (if on then bit_or x (2 ^ n) else x) ≡ (if (k == n) && on then 1 else bit k x) =
        λ n x on. ground (arith, bit-bit_or k x (2 ^ n), bit-two_pow k n, bit-le-one k x) in
      (
        flag 31 reg (is_strict tsa)
            ∙ ap (λ (b : ℕ). if k == 31 && is_strict tsa then 1 else b) packed,
        flag 31 _ (is_strict tsa)
            ∙ ap (λ (b : ℕ). if k == 31 && is_strict tsa then 1 else b)
                (flag 30 reg' (is_group_strict tsa))
            ∙ ground (arith, packed'),
        flag 31 _ (is_strict tsa)
            ∙ ap (λ (b : ℕ). if k == 31 && is_strict tsa then 1 else b)
                (flag 30 reg (is_group_strict tsa))
            ∙ ground (arith, packed),
      )
