-- ===== src/Reg.antt =====
-- Register access, src/txgbe_type.h: `rd32`, `rd32m`, `wr32`, `wr32m`, the array forms and `po32m`.
pub mod Frame
pub mod Merge
pub mod Await
pub mod Ram
pub mod Indexed
pub mod Sweep
use txgbe.Base.{
  ℕ, zero, suc, ◌+◌, ◌*◌, ◌/◌, ◌%◌, ◌^◌, bit_and, bit_or, bit_xor, Bool, ◌==◌, if◌then◌else◌, St,
  pure, ◌>>=◌, ◌>>◌,
}
use txgbe.Hw.{Hw, Bus, Status, success, err_timeout}

-- TXGBE_FAILED_READ_REG, all ones: what a read of a removed device gives.
abbrev pub failed_read_reg : ℕ
failed_read_reg = 0xffffffff

-- `~mask` on u32.
abbrev pub not32 : ℕ → ℕ
not32 mask = bit_xor mask 0xffffffff

-- The tries: `count`, or one for each ten microseconds.
abbrev pub po32m_count : ℕ → ℕ → ℕ
po32m_count usecs count = if count == 0 then (usecs + 9) / 10 else count

-- `x << k` on u32.
abbrev pub shl32 : ℕ → ℕ → ℕ
shl32 x k = x * 2 ^ k % 2 ^ 32

module _ {D : Type 0} ⦃bus : Bus D⦄ where
  unfoldable pub rd32 : ℕ → St (Hw D) ℕ
  rd32 reg hw =
      if hw.mapped
      then (let (val, dev) = bus.readl reg hw.dev in (val, record hw { dev = dev }))
      else (failed_read_reg, hw)

  unfoldable pub wr32 : ℕ → ℕ → St (Hw D) (Unit {0})
  wr32 reg val hw =
      if hw.mapped then (tt, record hw { dev = bus.writel reg val hw.dev }) else (tt, hw)

  -- `reg + (offset << 2)`
  abbrev pub rd32a : ℕ → ℕ → St (Hw D) ℕ
  rd32a reg offset = rd32 (reg + offset * 4)

  abbrev pub wr32a : ℕ → ℕ → ℕ → St (Hw D) (Unit {0})
  wr32a reg off val = wr32 (reg + off * 4) val

  unfoldable pub rd32m : ℕ → ℕ → St (Hw D) ℕ
  rd32m reg mask hw =
      if hw.mapped
      then (let (val, dev) = bus.readl reg hw.dev in
          (if val == failed_read_reg then val else bit_and val mask, record hw { dev = dev }))
      else (failed_read_reg, hw)

  unfoldable pub wr32m : ℕ → ℕ → ℕ → St (Hw D) (Unit {0})
  wr32m reg mask field hw =
      if hw.mapped
      then (let (val, dev) = bus.readl reg hw.dev in
          if val == failed_read_reg then (tt, record hw { dev = dev }) else (
            tt,
            record hw {
              dev = bus.writel reg (bit_or (bit_and val (not32 mask)) (bit_and field mask)) dev;
            },
          ))
      else (tt, hw)

  -- The `do` loop of `po32m`, with `loop` tries left after this one; the result is the final `loop`
  -- plus one, so that 0 is the -1 of a loop that ran out.
  unfoldable pub po32m_loop : ℕ → ℕ → ℕ → ℕ → St (Hw D) ℕ
  po32m_loop reg mask field zero = do
    value ← rd32 reg
    pure (if bit_and value mask == bit_and field mask then 1 else 0)
  po32m_loop reg mask field (suc loop) = do
    value ← rd32 reg
    let rest = po32m_loop reg mask field loop
    if bit_and value mask == bit_and field mask then pure (suc (suc loop)) else rest

  -- `count - loop <= count`, as integers: the final `loop` is not -1.
  unfoldable pub po32m : ℕ → ℕ → ℕ → ℕ → ℕ → St (Hw D) Status
  unfolding po32m_loop
  po32m reg mask field usecs count = do
    loop ← po32m_loop reg mask field (po32m_count usecs count)
    pure (if loop == 0 then err_timeout else success)
