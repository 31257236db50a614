-- ===== src/Reg/Await.antt =====
-- `po32m` waits for a register field.
use txgbe.Base.{ℕ, zero, suc, ◌≡◌, bit_and}
use txgbe.Hw.{Hw, Bus}
use txgbe.Reg.{rd32}

-- The register shows the field under the mask.
abbrev pub Matches : ℕ → ℕ → ℕ → Type 0
Matches mask field value = bit_and value mask ≡ bit_and field mask

module _ {D : Type 0} ⦃bus : Bus D⦄ (reg : ℕ) where
  -- The value of read number `i`, from 0, when the register is read again and again.
  abbrev pub read_at : ℕ → Hw D → ℕ
  read_at zero hw = (rd32 reg hw).0
  read_at (suc i) hw = read_at i (rd32 reg hw).1
