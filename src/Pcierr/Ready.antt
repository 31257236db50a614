-- ===== src/Pcierr/Ready.antt =====
-- The wait for the link, src/txgbe_pcierr.c `txgbe_pcie_do_recovery`.
use txgbe.Base.{ℕ, zero, suc, ◌*◌, ◌^◌, ◌≤◌, ◌<◌, ◌≡◌, ◌≢◌, true, none, some, ◌↔◌, double, arith}
use native.Mathlib.Nat.{pow-le-pow_right}
use native.Mathlib.Decide.{ℕ_discrete}
use txgbe.Pcierr.Recovery.{Port, wait_loop, wait_ready}

grow : (x j : ℕ) → x ≤ x * 2 ^ j
grow x zero = omega arith
grow x (suc j) = omega (arith, double x j, grow x j)

double_first : (x j : ℕ) → x * 2 * 2 ^ j ≡ x * 2 ^ suc j
double_first x zero = omega arith
double_first x (suc j) = omega (arith, double (x * 2) j, double x (suc j), double_first x j)

module _ {W : Type 0} (port : Port W) where
  -- The world after the sleep and the read of a round, and what it reads.
  abbrev slept : ℕ → W → ℕ × W
  slept delay w = port.read_config_dword (port.command) (port.msleep delay w).1

  -- What read number `i` gives, from 0, with the sleeps in between doubling from `delay`.
  abbrev pub id_at : ℕ → ℕ → ℕ × W → ℕ
  id_at zero delay now = now.0
  id_at (suc i) delay now = id_at i (delay * 2) (slept delay now.1)

  -- A read that is not all ones before the delay has grown too long ends the wait.
  wait_loop_found :
      (fuel i delay id : ℕ) (w : W)
      → i < fuel
      → delay * 2 ^ i ≤ 65536
      → id_at i delay (id, w) ≢ 0xffffffff
      → (wait_loop port fuel delay id w).0 ≡ some true
  unfolding wait_loop
  wait_loop_found zero i delay id w h long live = absurd (omega arith)
  wait_loop_found (suc fuel) zero delay id w h long live = ground (arith, live)
  wait_loop_found (suc fuel) (suc i) delay id w h long live =
      let now = slept delay w in
      let rest : (wait_loop port fuel (delay * 2) now.0 now.1).0 ≡ some true =
        wait_loop_found fuel i (delay * 2) now.0 now.1 (omega arith)
          (omega (arith, double_first delay i)) live in
      let short : delay ≤ 60000 = omega (arith, double delay i, grow delay i) in
      elim (ℕ_discrete id 0xffffffff) [
        | yes e ↦ ground (arith, e, short, rest)
        | no ne ↦ ground (arith, ne)
      ]

  -- A wait that found the device has read something else than all ones.
  wait_loop_read :
      (fuel delay id : ℕ) (w : W)
      → (wait_loop port fuel delay id w).0 ≡ some true
      → (i : ℕ) × (i < fuel) × (id_at i delay (id, w) ≢ 0xffffffff)
  unfolding wait_loop
  wait_loop_read zero delay id w e = absurd (ground arith)
  wait_loop_read (suc fuel) delay id w e = elim (ℕ_discrete id 0xffffffff) [
    | yes same ↦
        let now = slept delay w in
        let (i, h, live) = wait_loop_read fuel (delay * 2) now.0 now.1 (ground (arith, same, e)) in
        (suc i, omega arith, live)
    | no ne ↦ (0, omega arith, ne)
  ]

  -- With fuel for the delays the loop ends.
  wait_loop_ends :
      (fuel delay id : ℕ) (w : W)
      → 60000 < delay * 2 ^ fuel
      → (wait_loop port (suc fuel) delay id w).0 ≢ none
  unfolding wait_loop
  wait_loop_ends zero delay id w long = ground (arith, long)
  wait_loop_ends (suc fuel) delay id w long =
      let now = slept delay w in
      ground (
        arith,
        wait_loop_ends fuel (delay * 2) now.0 now.1 (omega (arith, double_first delay fuel)),
      )

  -- The wait of `txgbe_pcie_do_recovery` for the port, whose sleeps double from one millisecond, ends;
  -- it finds the port exactly when one of its first 17 reads is not all ones, and else gives up.
  pub wait_ready_lem :
      (w : W)
      → let result = (wait_ready port w).0 in
        (result ≢ none)
        × ((result ≡ some true) ↔ (
            (i : ℕ) × (i < 17)
            × (id_at i 1 (port.read_config_dword (port.command) w) ≢ 0xffffffff)))
  unfolding wait_ready
  wait_ready_lem w =
      let first = port.read_config_dword (port.command) w in
      (
        wait_loop_ends 16 1 first.0 first.1 (omega arith),
        (
          wait_loop_read 17 1 first.0 first.1,
          λ (i, h, live).
              wait_loop_found 17 i 1 first.0 first.1 h
                (omega
                  (arith, pow-le-pow_right {n = 2} (omega arith) {i = i} {j = 16} (omega arith)))
                live,
        ),
      )
