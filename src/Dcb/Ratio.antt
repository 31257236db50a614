-- ===== src/Dcb/Ratio.antt =====
-- What the credits of src/txgbe_dcb.c `txgbe_dcb_calculate_tc_credits` guarantee.
use txgbe.Base.{
  ℕ, zero, suc, ◌+◌, ◌*◌, ◌/◌, ◌^◌, ◌≤◌, ◌<◌, ◌≡◌, ◌≢◌, refl, arith, max, List, [], ◌∷◌, get_or,
  get_or-map, length, ltb, nonzero, ◌&&◌, if◌then◌else◌,
}
use txgbe.Dcb.Credits.{min_credit_of, smallest, multiplier_of, refill_of, calculate_tc_credits}

pub smallest_bounds : (m : ℕ) (bw : List ℕ) → 0 < m → (0 < smallest m bw) × (smallest m bw ≤ m)
unfolding smallest
smallest_bounds m [] h = omega arith
smallest_bounds m (b ∷ bw) h =
    ground (arith, smallest_bounds (if ltb b m && nonzero b then b else m) bw)

pub smallest-le :
    (m : ℕ) (bw : List ℕ) (i : ℕ) → 0 < m → get_or bw i 0 ≢ 0 → smallest m bw ≤ get_or bw i 0
unfolding smallest
smallest-le m [] i h ne = absurd (ne refl)
smallest-le m (b ∷ bw) zero h ne =
    ground (arith, smallest_bounds (if ltb b m && nonzero b then b else m) bw)
smallest-le m (b ∷ bw) (suc i) h ne =
    smallest-le (if ltb b m && nonzero b then b else m) bw i (ground arith) ne

-- Rounding up by one makes the product exceed the dividend.
lt-mul_div_suc : (c s : ℕ) → 0 < s → c < s * (c / s + 1)
lt-mul_div_suc c s h = grind arith

pub lt-mul_multiplier : (c s b : ℕ) → 0 < s → s ≤ b → c < b * (c / s + 1)
lt-mul_multiplier c s b h le = grind (arith, lt-mul_div_suc c s h)

pub min_credit-lt : (f : ℕ) → f < 2 ^ 16 → min_credit_of f < 513
unfolding min_credit_of
min_credit-lt f h = omega arith

module _ (bw : List ℕ) (max_frame_size i : ℕ) (frame : max_frame_size < 2 ^ 16)
    (inside : i < length bw) where
  abbrev pub refill : ℕ
  refill = get_or (calculate_tc_credits bw max_frame_size).0 i 0

  refill_value :
      refill
      ≡ refill_of (min_credit_of max_frame_size) (multiplier_of bw max_frame_size) (get_or bw i 0)
  unfolding calculate_tc_credits
  refill_value =
      get_or-map (refill_of (min_credit_of max_frame_size) (multiplier_of bw max_frame_size)) bw i 0
        0 inside

  -- With frames below 64 KB, the refill of every class of the array is at least the credits of
  -- half a frame, and at most the larger of that and 200.
  pub refill_bounds :
      (min_credit_of max_frame_size ≤ refill) × (refill ≤ max 200 (min_credit_of max_frame_size))
  unfolding refill_of
  refill_bounds = ground (arith, refill_value, min_credit-lt max_frame_size frame)

  -- A class with a share whose refill is below the cap has its share times the multiplier.
  refill_uncapped :
      get_or bw i 0 ≢ 0 → refill < 200 → refill ≡ get_or bw i 0 * multiplier_of bw max_frame_size
  unfolding refill_of multiplier_of
  refill_uncapped ne small = ground (
    arith,
    refill_value,
    min_credit-lt max_frame_size frame,
    lt-mul_multiplier (min_credit_of max_frame_size) (smallest 100 bw) (get_or bw i 0)
        (smallest_bounds 100 bw (omega arith)).0 (smallest-le 100 bw i (omega arith) ne),
  )

-- With frames below 64 KB, the refills of two classes of the array that have shares and whose
-- refills are below the cap of 200 are in the ratio of the shares.
pub refill_ratio :
    (bw : List ℕ) (max_frame_size i j : ℕ)
    → max_frame_size < 2 ^ 16
    → i < length bw
    → j < length bw
    → get_or bw i 0 ≢ 0
    → get_or bw j 0 ≢ 0
    → get_or (calculate_tc_credits bw max_frame_size).0 i 0 < 200
    → get_or (calculate_tc_credits bw max_frame_size).0 j 0 < 200
    → get_or (calculate_tc_credits bw max_frame_size).0 i 0 * get_or bw j 0
      ≡ get_or (calculate_tc_credits bw max_frame_size).0 j 0 * get_or bw i 0
refill_ratio bw f i j frame pi pj ni nj si sj =
    rw (refill_uncapped bw f i frame pi ni si, refill_uncapped bw f j frame pj nj sj) (omega arith)
