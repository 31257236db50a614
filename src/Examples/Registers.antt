-- ===== src/Examples/Registers.antt =====
-- The theorems on register access at concrete devices.
use txgbe.Base.{◌<◌, ℕ, ◌≡◌, ◌==◌, refl, bit, if◌then◌else◌, arith}
use txgbe.Hw.{Hw}
use txgbe.Reg.{wr32m}
use txgbe.Reg.Merge.{wr32m_lem}
use txgbe.Examples.Device.{Memory, zeros, update, ram_bus, hw_over}

abbrev set_hw : Hw Memory
set_hw = hw_over (update 0x14400 0xf0 zeros)

wr32m_lem_example :
    (v : ℕ) × ((wr32m ⦃bus = ram_bus⦄ 0x14400 0x3c 0x0f set_hw).1.dev ≡ update 0x14400 v set_hw.dev)
    × ((k : ℕ) → k < 32 → bit k v ≡ (if bit k 0x3c == 1 then bit k 0x0f else bit k 0xf0))
wr32m_lem_example = wr32m_lem ⦃bus = ram_bus⦄ 0x14400 0x3c 0x0f set_hw refl (λ e. omega arith)
