-- ===== src/Base/Pack.antt =====
-- Numbers packed side by side with `|` and `<<`.
use Prim.Native.Nat.{ℕ, zero, suc, ◌+◌, ◌-◌, ◌*◌, ◌/◌, ◌%◌, ◌^◌, ◌<◌, bit_or, bit_and}
use mathlib.Core.Path.{◌≡◌, sym, ap, ◌∙◌}
use mathlib.Core.Logic.{inl, inr}
use mathlib.Core.Bool.{true}
use native.Mathlib.Nat.{pow-suc, mul_comm, div-div-eq-div-mul}
use native.Mathlib.Omega.{arith}
use txgbe.Base.Tests.{ltb, if◌then◌else◌, Bool-cases}
use txgbe.Base.Bits.{
  bit, bit_ext, bit_above, bit-bit_or, bit-bit_and, bit-le-one, bit-low_ones, bit_and_comm,
  bit_and-lt,
}
use txgbe.Base.Shift.{bit-shift, double}

pub bit-join :
    (k j x y : ℕ) → x < 2 ^ j → bit k (x + y * 2 ^ j) ≡ (if ltb k j then bit k x else bit (k - j) y)
unfolding bit
bit-join k zero x y h = let e : x + y * 2 ^ 0 ≡ y = omega arith in ap (bit k) e ∙ ground arith
bit-join zero (suc j) x y h =
    let e : y * 2 ^ suc j ≡ y * 2 ^ j * 2 = double y j in ground (arith, e)
bit-join (suc k) (suc j) x y h =
    let d : y * 2 ^ suc j ≡ y * 2 ^ j * 2 = double y j in
    let e : (x + y * 2 ^ suc j) / 2 ≡ x / 2 + y * 2 ^ j = omega (arith, d) in
    ap (bit k) e ∙ (bit-join k j (x / 2) y (omega (arith, pow-suc 2 j)) ∙ ground arith)

-- `x | y << j`, where `x` is below `1 << j`, is a sum.
pub bit_or_packed : (j x y : ℕ) → x < 2 ^ j → bit_or x (y * 2 ^ j) ≡ x + y * 2 ^ j
bit_or_packed j x y h = bit_ext _ _ λ k. elim (Bool-cases (ltb k j)) [
  | inl lo ↦
      ground
        (arith, bit-bit_or k x (y * 2 ^ j), bit-shift k j y, bit-join k j x y h, bit-le-one k x)
  | inr hi ↦ ground (
    arith,
    bit-bit_or k x (y * 2 ^ j),
    bit-shift k j y,
    bit-join k j x y h,
    bit_above j k x h (ground arith),
    bit-le-one (k - j) y,
  )
]

-- Numbers that agree in their lowest 16 bits.
pub low_half : (x y : ℕ) → ((k : ℕ) → k < 16 → bit k x ≡ bit k y) → x % 2 ^ 16 ≡ y % 2 ^ 16
low_half x y same = bit_ext _ _ λ k. elim (Bool-cases (ltb k 16)) [
  | inl lo ↦ sym (part x k lo) ∙ same k (ground arith) ∙ part y k lo
  | inr hi ↦
      bit_above 16 k (x % 2 ^ 16) (omega arith) (ground arith)
      ∙ sym (bit_above 16 k (y % 2 ^ 16) (omega arith) (ground arith))
]
  where
    part : (z k : ℕ) → ltb k 16 ≡ true → bit k z ≡ bit k (z % 2 ^ 16)
    part z k lo =
        let e : z ≡ z % 2 ^ 16 + z / 2 ^ 16 * 2 ^ 16 = omega arith in
        ap (bit k) e ∙ (bit-join k 16 (z % 2 ^ 16) (z / 2 ^ 16) (omega arith) ∙ ground arith)

-- The bits of a right shift, and of a number cut to 32 bits.
pub bit-div : (k n x : ℕ) → bit k (x / 2 ^ n) ≡ bit (k + n) x
unfolding bit
bit-div k zero x =
    let e : x / 2 ^ 0 ≡ x = omega arith in let f : k ≡ k + 0 = omega arith in λ i. bit (f i) (e i)
bit-div k (suc n) x =
    let f : suc (k + n) ≡ k + suc n = omega arith in
    ap (bit k) (
      ap (λ (m : ℕ). x / m) (pow-suc 2 n ∙ mul_comm (2 ^ n) 2)
      ∙ sym (div-div-eq-div-mul x 2 (2 ^ n)))
    ∙ bit-div k n (x / 2)
    ∙ ap (λ (j : ℕ). bit j x) f

pub bit-low32 : (k x : ℕ) → k < 32 → bit k (x % 2 ^ 32) ≡ bit k x
bit-low32 k x h =
    let e : x ≡ x % 2 ^ 32 + x / 2 ^ 32 * 2 ^ 32 = omega arith in
    sym (ap (bit k) e ∙ (bit-join k 32 (x % 2 ^ 32) (x / 2 ^ 32) (omega arith) ∙ ground arith))

-- The mask of the low half is a remainder.
pub bit_and_low_half : (x : ℕ) → bit_and x 0xffff ≡ x % 2 ^ 16
bit_and_low_half x =
    let e : bit_and x 0xffff % 2 ^ 16 ≡ x % 2 ^ 16 =
      low_half (bit_and x 0xffff) x
        λ k h. ground (arith, bit-bit_and k x 0xffff, bit-low_ones 16 k h, bit-le-one k x) in
    omega (arith, e, bit_and_comm x 0xffff, bit_and-lt 16 0xffff x (omega arith))
