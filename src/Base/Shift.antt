-- ===== src/Base/Shift.antt =====
-- The bits of a left shift.
use Prim.Native.Nat.{ℕ, zero, suc, ◌-◌, ◌*◌, ◌/◌, ◌^◌}
use mathlib.Core.Path.{◌≡◌, ap, ◌∙◌}
use native.Mathlib.Nat.{pow-suc}
use native.Mathlib.Omega.{arith}
use txgbe.Base.Tests.{ltb, if◌then◌else◌}
use txgbe.Base.Bits.{bit}

pub double : (x j : ℕ) → x * 2 ^ suc j ≡ x * 2 ^ j * 2
double x j = grind (arith, pow-suc 2 j)

pub bit-shift : (k j x : ℕ) → bit k (x * 2 ^ j) ≡ (if ltb k j then 0 else bit (k - j) x)
unfolding bit
bit-shift k zero x = let e : x * 2 ^ 0 ≡ x = omega arith in ap (bit k) e ∙ ground arith
bit-shift zero (suc j) x = ground (arith, double x j)
bit-shift (suc k) (suc j) x =
    let e : x * 2 ^ suc j / 2 ≡ x * 2 ^ j = omega (arith, double x j) in
    ap (bit k) e ∙ (bit-shift k j x ∙ ground arith)
