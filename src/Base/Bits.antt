-- ===== src/Base/Bits.antt =====
-- The bits of a native number, and what `&`, `|` and `^` do to each of them.
use Prim.Native.Nat.{
  ℕ, zero, suc, ◌+◌, ◌-◌, ◌*◌, ◌/◌, ◌%◌, ◌^◌, ◌≤◌, ◌<◌, min, max, differ, digits, bit_and, bit_or,
  bit_xor, bit_and-bitwise, bit_or-bitwise, bit_xor-bitwise,
}
use mathlib.Core.Path.{◌≡◌, refl, sym, ap, ◌∙◌}
use mathlib.Core.Logic.{◌⊎◌, inl, inr}
use native.Mathlib.Nat.{pow-suc, one-le-pow, pow-le-pow_right, le_refl}
use native.Mathlib.Omega.{arith}
use txgbe.Base.Tests.{◌==◌, if◌then◌else◌}

-- Bit `k` of `x`: 0 or 1.
unfoldable pub bit : ℕ → ℕ → ℕ
bit zero x = x % 2
bit (suc k) x = bit k (x / 2)

pub bit-le-one : (k x : ℕ) → bit k x ≤ 1
unfolding bit
bit-le-one zero x = omega arith
bit-le-one (suc k) x = bit-le-one k (x / 2)

pub bit-zero : (k : ℕ) → bit k 0 ≡ 0
unfolding bit
bit-zero zero = refl
bit-zero (suc k) = bit-zero k

bit_cons : (k q r : ℕ) → r < 2 → bit (suc k) (q * 2 + r) ≡ bit k q
unfolding bit
bit_cons k q r h = let e : (q * 2 + r) / 2 ≡ q = omega arith in ap (bit k) e

-- A digit-by-digit operation acts on each bit by itself.
module _ (z : ℕ → ℕ) (f : ℕ → ℕ → ℕ) (small : (a b : ℕ) → a ≤ 1 → b ≤ 1 → f a b ≤ 1)
    (run_out : (k b : ℕ) → bit k (z b) ≡ f 0 (bit k b)) where
  bit-digits : (k n a b : ℕ) → a ≤ n → bit k (digits z f n a b) ≡ f (bit k a) (bit k b)
  bit-digits k zero zero b h = run_out k b ∙ ap (λ t. f t (bit k b)) (sym (bit-zero k))
  bit-digits k zero (suc a) b h = absurd (omega arith)
  bit-digits k (suc n) zero b h = run_out k b ∙ ap (λ t. f t (bit k b)) (sym (bit-zero k))
  bit-digits zero (suc n) (suc a) b h =
      let s : f (suc a % 2) (b % 2) ≤ 1 = small (suc a % 2) (b % 2) (omega arith) (omega arith) in
      unfold bit in omega arith
  bit-digits (suc k) (suc n) (suc a) b h =
      bit_cons k (digits z f n (suc a / 2) (b / 2)) (f (suc a % 2) (b % 2))
        (omega (arith, small (suc a % 2) (b % 2) (omega arith) (omega arith)))
      ∙ (bit-digits k n (suc a / 2) (b / 2) (omega arith) ∙ refl_bits)
    where
      refl_bits : f (bit k (suc a / 2)) (bit k (b / 2)) ≡ f (bit (suc k) (suc a)) (bit (suc k) b)
      refl_bits = unfold bit in refl

pub bit-bit_and : (k a b : ℕ) → bit k (bit_and a b) ≡ min (bit k a) (bit k b)
bit-bit_and k a b =
    ap (bit k) (λ i. bit_and-bitwise a b i)
    ∙ bit-digits (λ b. zero) min (λ a b p q. omega arith) (λ k b. omega (arith, bit-zero k)) k a a b
        (le_refl a)

pub bit-bit_or : (k a b : ℕ) → bit k (bit_or a b) ≡ max (bit k a) (bit k b)
bit-bit_or k a b =
    ap (bit k) (λ i. bit_or-bitwise a b i)
    ∙ bit-digits (λ b. b) max (λ a b p q. omega arith) (λ k b. omega arith) k a a b (le_refl a)

differ_bits : (a b : ℕ) → a ≤ 1 → b ≤ 1 → differ a b ≤ 1
differ_bits zero b p q = q
differ_bits (suc a) zero p q = p
differ_bits (suc zero) (suc b) p q = omega arith
differ_bits (suc (suc a)) (suc b) p q = absurd (omega arith)

differ-eq_test : (a b : ℕ) → a ≤ 1 → b ≤ 1 → differ a b ≡ (if a == b then 0 else 1)
differ-eq_test zero b p q = ground arith
differ-eq_test (suc zero) zero p q = ground arith
differ-eq_test (suc zero) (suc zero) p q = ground arith
differ-eq_test (suc zero) (suc (suc b)) p q = absurd (omega arith)
differ-eq_test (suc (suc a)) b p q = absurd (omega arith)

pub bit-bit_xor : (k a b : ℕ) → bit k (bit_xor a b) ≡ (if bit k a == bit k b then 0 else 1)
bit-bit_xor k a b =
    ap (bit k) (λ i. bit_xor-bitwise a b i)
    ∙ bit-digits (λ b. b) differ differ_bits (λ k b. refl) k a a b (le_refl a)
    ∙ differ-eq_test (bit k a) (bit k b) (bit-le-one k a) (bit-le-one k b)

-- Numbers with the same bits are equal.
bit_ext_fuel : (n a b : ℕ) → a ≤ n → b ≤ n → ((k : ℕ) → bit k a ≡ bit k b) → a ≡ b
unfolding bit
bit_ext_fuel zero a b p q h = omega arith
bit_ext_fuel (suc n) a b p q h = elim (small_or_big a b) [
  | inl e ↦ e.0 ∙ sym e.1
  | inr e ↦
      omega
        (arith, h 0, bit_ext_fuel n (a / 2) (b / 2) (omega arith) (omega arith) (λ k. h (suc k)))
]
  where
    small_or_big : (a b : ℕ) → ((a ≡ 0) × (b ≡ 0)) ⊎ (1 ≤ a + b)
    small_or_big zero zero = inl (refl, refl)
    small_or_big zero (suc b) = inr (omega arith)
    small_or_big (suc a) b = inr (omega arith)

pub bit_ext : (a b : ℕ) → ((k : ℕ) → bit k a ≡ bit k b) → a ≡ b
bit_ext a b = bit_ext_fuel (a + b) a b (omega arith) (omega arith)

-- `1 << j` has bit `j` alone.
pub bit-two_pow : (k j : ℕ) → bit k (2 ^ j) ≡ (if k == j then 1 else 0)
unfolding bit
bit-two_pow zero zero = refl
bit-two_pow zero (suc j) = ground (arith, pow-suc 2 j)
bit-two_pow (suc k) zero = bit-zero k ∙ ground arith
bit-two_pow (suc k) (suc j) =
    let e : 2 ^ suc j / 2 ≡ 2 ^ j = omega (arith, pow-suc 2 j) in
    ap (bit k) e ∙ (bit-two_pow k j ∙ ground arith)

bit-bit_mul : (k j c : ℕ) → c ≤ 1 → bit k (c * 2 ^ j) ≡ min c (if k == j then 1 else 0)
bit-bit_mul k j zero h = ap (bit k) (omega arith) ∙ (bit-zero k ∙ omega arith)
bit-bit_mul k j (suc zero) h = ap (bit k) (omega arith) ∙ (bit-two_pow k j ∙ ground arith)
bit-bit_mul k j (suc (suc c)) h = absurd (omega arith)

-- `x & (1 << j)` is the bit itself, in its place.
pub bit_and-two_pow : (x j : ℕ) → bit_and x (2 ^ j) ≡ bit j x * 2 ^ j
bit_and-two_pow x j = bit_ext _ _ λ k. ground (
  arith,
  bit-bit_and k x (2 ^ j),
  bit-two_pow k j,
  bit-bit_mul k j (bit j x) (bit-le-one j x),
  bit-le-one k x,
)

-- The bits from `n` on of a number below `2 ^ n` are 0, and the converse.
pub bit_above : (n k x : ℕ) → x < 2 ^ n → n ≤ k → bit k x ≡ 0
unfolding bit
bit_above zero k x h q = ap (bit k) (omega arith) ∙ bit-zero k
bit_above (suc n) zero x h q = absurd (omega arith)
bit_above (suc n) (suc k) x h q = bit_above n k (x / 2) (omega (arith, pow-suc 2 n)) (omega arith)

pub lt_of_bits : (n x : ℕ) → ((k : ℕ) → n ≤ k → bit k x ≡ 0) → x < 2 ^ n
unfolding bit
lt_of_bits zero x h =
    let e : x ≡ 0 = bit_ext x 0 (λ k. h k (omega arith) ∙ sym (bit-zero k)) in omega arith
lt_of_bits (suc n) x h =
    omega (arith, pow-suc 2 n, lt_of_bits n (x / 2) (λ k q. h (suc k) (omega arith)))

pub bit_or-lt : (n a b : ℕ) → a < 2 ^ n → b < 2 ^ n → bit_or a b < 2 ^ n
bit_or-lt n a b p q =
    lt_of_bits n (bit_or a b)
      λ k h. omega (arith, bit-bit_or k a b, bit_above n k a p h, bit_above n k b q h)

pub bit_and-lt : (n a b : ℕ) → a < 2 ^ n → bit_and a b < 2 ^ n
bit_and-lt n a b p =
    lt_of_bits n (bit_and a b) λ k h. omega (arith, bit-bit_and k a b, bit_above n k a p h)

pub bit-low_ones : (n k : ℕ) → k < n → bit k (2 ^ n - 1) ≡ 1
unfolding bit
bit-low_ones zero k h = absurd (omega arith)
bit-low_ones (suc n) zero h = omega (arith, pow-suc 2 n, one-le-pow n 2)
bit-low_ones (suc n) (suc k) h =
    let e : (2 ^ suc n - 1) / 2 ≡ 2 ^ n - 1 = omega (arith, pow-suc 2 n) in
    ap (bit k) e ∙ bit-low_ones n k (omega arith)

pub bit_and_comm : (a b : ℕ) → bit_and a b ≡ bit_and b a
bit_and_comm a b = bit_ext _ _ λ k. omega (arith, bit-bit_and k a b, bit-bit_and k b a)

-- The test of a single bit.
pub bit_and-two_pow_zero : (x j : ℕ) → bit j x ≡ 0 → bit_and x (2 ^ j) ≡ 0
bit_and-two_pow_zero x j h = bit_and-two_pow x j ∙ ap (λ (b : ℕ). b * 2 ^ j) h ∙ omega arith

pub bit_and-two_pow_pos : (x j : ℕ) → bit j x ≡ 1 → 0 < bit_and x (2 ^ j)
bit_and-two_pow_pos x j h =
    omega (arith, one-le-pow j 2, bit_and-two_pow x j ∙ ap (λ (b : ℕ). b * 2 ^ j) h)

pub bit-cases : (k x : ℕ) → (bit k x ≡ 0) ⊎ (bit k x ≡ 1)
bit-cases k x = split (bit k x) (bit-le-one k x)
  where
    split : (b : ℕ) → b ≤ 1 → (b ≡ 0) ⊎ (b ≡ 1)
    split zero h = inl refl
    split (suc b) h = inr (omega arith)

pub two_pow-lt : {i j : ℕ} → i < j → 2 ^ i < 2 ^ j
two_pow-lt {i} {j} h = omega (
  arith,
  pow-le-pow_right {n = 2} (omega arith) {i = suc i} {j = j} h,
  pow-suc 2 i,
  one-le-pow i 2,
)
