-- ===== src/Reg/Merge.antt =====
-- `wr32m` replaces the bits of the mask and keeps the others.
use txgbe.Base.{
  ℕ, ◌-◌, ◌≡◌, ◌<◌, ◌≢◌, ◌∙◌, arith, true, ◌==◌, if◌then◌else◌, bit, bit_and, bit_or, bit-bit_and,
  bit-bit_or, bit-bit_xor, bit-le-one, bit-low_ones,
}
use txgbe.Hw.{Hw, Bus}
use txgbe.Reg.{wr32m, not32, failed_read_reg}

pub bit-not32 : (k m : ℕ) → k < 32 → bit k (not32 m) ≡ 1 - bit k m
bit-not32 k m h = bit-bit_xor k m 0xffffffff ∙ ground (arith, bit-low_ones 32 k h, bit-le-one k m)

-- The value that `wr32m` writes over `val`.
abbrev pub merged : ℕ → ℕ → ℕ → ℕ
merged val mask field = bit_or (bit_and val (not32 mask)) (bit_and field mask)

pub bit-merged :
    (k val mask field : ℕ)
    → k < 32
    → bit k (merged val mask field) ≡ (if bit k mask == 1 then bit k field else bit k val)
bit-merged k val mask field h = ground (
  arith,
  bit-bit_or k (bit_and val (not32 mask)) (bit_and field mask),
  bit-bit_and k val (not32 mask),
  bit-bit_and k field mask,
  bit-not32 k mask h,
  bit-le-one k mask,
  bit-le-one k val,
  bit-le-one k field,
)

-- `wr32m` on a mapped device whose register does not read as all ones: one value is written to the
-- register, and each of its 32 bits is the field's where the mask is set and the old one elsewhere.
pub wr32m_lem :
    {D : Type 0} ⦃bus : Bus D⦄ (reg mask field : ℕ) (hw : Hw D)
    → hw.mapped ≡ true
    → (bus.readl reg hw.dev).0 ≢ failed_read_reg
    → (v : ℕ) × ((wr32m reg mask field hw).1.dev ≡ bus.writel reg v (bus.readl reg hw.dev).1)
      × ((k : ℕ)
          → k < 32
          → bit k v ≡ (if bit k mask == 1 then bit k field else bit k (bus.readl reg hw.dev).0))
unfolding wr32m
wr32m_lem ⦃bus⦄ reg mask field hw m ne = (
  merged (bus.readl reg hw.dev).0 mask field,
  ground arith,
  λ k h. bit-merged k (bus.readl reg hw.dev).0 mask field h,
)
