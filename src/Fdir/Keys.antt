-- ===== src/Fdir/Keys.antt =====
-- The bits of the shared and the separate sums of the signature hash.
use txgbe.Base.{
  ℕ, ◌-◌, ◌*◌, ◌^◌, ◌<◌, ◌≡◌, ◌∙◌, bit_xor, ◌==◌, ltb, if◌then◌else◌, bit, bit_ext, bit-bit_xor,
  bit-le-one, bit-cases, bit-shift, bit-low32, bit_and-two_pow_zero, bit_and-two_pow_pos, inl, inr,
  arith,
}
use txgbe.Reg.{shl32}
use txgbe.Fdir.Hash.{key_bit}

bit_xor_comm : (a b : ℕ) → bit_xor a b ≡ bit_xor b a
bit_xor_comm a b = bit_ext _ _ λ k. ground (arith, bit-bit_xor k a b, bit-bit_xor k b a)

-- `(a ^ b) ^ c` in the two other orders.
pub bit_xor_right : (a b c : ℕ) → bit_xor (bit_xor a c) b ≡ bit_xor (bit_xor a b) c
bit_xor_right a b c = bit_ext _ _ λ k. ground (
  arith,
  bit-bit_xor k (bit_xor a c) b,
  bit-bit_xor k (bit_xor a b) c,
  bit-bit_xor k a c,
  bit-bit_xor k a b,
  bit-le-one k a,
  bit-le-one k b,
  bit-le-one k c,
)

pub bit_xor_assoc : (a b c : ℕ) → bit_xor a (bit_xor b c) ≡ bit_xor (bit_xor a b) c
bit_xor_assoc a b c = bit_ext _ _ λ k. ground (
  arith,
  bit-bit_xor k a (bit_xor b c),
  bit-bit_xor k (bit_xor a b) c,
  bit-bit_xor k b c,
  bit-bit_xor k a b,
  bit-le-one k a,
  bit-le-one k b,
  bit-le-one k c,
)

-- The test of a key bit.
pub key_bit-bit : (key k : ℕ) → key_bit key k ≡ (bit k key == 1)
key_bit-bit key k = elim (bit-cases k key) [
  | inl z ↦ ground (arith, bit_and-two_pow_zero key k z)
  | inr o ↦ ground (arith, bit_and-two_pow_pos key k o)
]

pub bit-shl32 : (k n x : ℕ) → k < 32 → bit k (shl32 x n) ≡ (if ltb k n then 0 else bit (k - n) x)
bit-shl32 k n x h = bit-low32 k (x * 2 ^ n) h ∙ bit-shift k n x
