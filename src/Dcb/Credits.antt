-- ===== src/Dcb/Credits.antt =====
-- Credits for the IEEE case, src/txgbe_dcb.c: `txgbe_dcb_calculate_tc_credits`. The arrays have one
-- entry for each traffic class, so a loop over the classes is a recursion on the list. The
-- computations in `int` are exact while they do not overflow.
use txgbe.Base.{
  ℕ, ◌+◌, ◌-◌, ◌*◌, ◌/◌, ◌%◌, ◌^◌, min, ltb, nonzero, if◌then◌else◌, ◌&&◌, List, [], ◌∷◌,
}
use mathlib.Core.List.{map}
use txgbe.Dcb.Config.{credit_quantum, max_credit_refill, max_credit}

-- `((max_frame_size / 2) + QUANTUM - 1) / QUANTUM`
unfoldable pub min_credit_of : ℕ → ℕ
min_credit_of max_frame_size = (max_frame_size / 2 + credit_quantum - 1) / credit_quantum

-- The loop for the smallest nonzero percentage, from `min_percent`.
unfoldable pub smallest : ℕ → List ℕ → ℕ
smallest min_percent [] = min_percent
smallest min_percent (b ∷ bw) =
    smallest (if ltb b min_percent && nonzero b then b else min_percent) bw

unfoldable pub multiplier_of : List ℕ → ℕ → ℕ
multiplier_of bw max_frame_size = min_credit_of max_frame_size / smallest 100 bw + 1

-- `refill[i]`
unfoldable pub refill_of : ℕ → ℕ → ℕ → ℕ
refill_of min_credit multiplier b =
    let val = min (b * multiplier) max_credit_refill in
    (if ltb val min_credit then min_credit else val) % 2 ^ 16

-- `max[i]`
unfoldable pub max_of : ℕ → ℕ → ℕ
max_of min_credit b = (if nonzero b then b * max_credit / 100 else min_credit) % 2 ^ 16

-- The arrays `refill` and `max` that it fills.
unfoldable pub calculate_tc_credits : List ℕ → ℕ → List ℕ × List ℕ
unfolding multiplier_of
calculate_tc_credits bw max_frame_size =
    let min_credit = min_credit_of max_frame_size in
    (map (refill_of min_credit (multiplier_of bw max_frame_size)) bw, map (max_of min_credit) bw)
