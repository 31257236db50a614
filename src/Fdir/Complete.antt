-- ===== src/Fdir/Complete.antt =====
-- When a Flow Director command completes: src/txgbe_hw.c `txgbe_fdir_check_cmd_complete`.
use txgbe.Base.{ℕ, zero, suc, ◌<◌, ◌≡◌, bit_and, ◌↔◌, arith}
use native.Mathlib.Decide.{ℕ_discrete}
use txgbe.Hw.{Hw, Bus, success}
use txgbe.Reg.{rd32}
use txgbe.Reg.Await.{read_at}
use txgbe.Fdir.Filter.{rdb_fdir_cmd, rdb_fdir_cmd_cmd_mask, poll_cmd, fdir_check_cmd_complete}

-- The value shows no command in progress.
abbrev pub Idle : ℕ → Type 0
Idle value = bit_and value rdb_fdir_cmd_cmd_mask ≡ 0

module _ {D : Type 0} ⦃bus : Bus D⦄ where
  poll_cmd_found :
      (n i cmd : ℕ) (hw : Hw D)
      → i < n
      → Idle (read_at rdb_fdir_cmd i hw)
      → (poll_cmd n cmd hw).0.0 ≡ success
  unfolding poll_cmd
  poll_cmd_found zero i cmd hw h e = absurd (omega arith)
  poll_cmd_found (suc n) zero cmd hw h e = ground arith
  poll_cmd_found (suc n) (suc i) cmd hw h e =
      let v = (rd32 rdb_fdir_cmd hw).0 in
      let next = (rd32 rdb_fdir_cmd hw).1 in
      ground (arith, poll_cmd_found n i v next (omega arith) e)

  poll_cmd-Idle :
      (n cmd : ℕ) (hw : Hw D)
      → (poll_cmd n cmd hw).0.0 ≡ success
      → (i : ℕ) × (i < n) × Idle (read_at rdb_fdir_cmd i hw)
  unfolding poll_cmd
  poll_cmd-Idle zero cmd hw e = absurd (ground arith)
  poll_cmd-Idle (suc n) cmd hw e =
      let v = (rd32 rdb_fdir_cmd hw).0 in
      let next = (rd32 rdb_fdir_cmd hw).1 in
      elim (ℕ_discrete (bit_and v rdb_fdir_cmd_cmd_mask) 0) [
        | yes z ↦ (0, omega arith, z)
        | no nz ↦ let (i, h, z) = poll_cmd-Idle n v next (ground arith) in (suc i, omega arith, z)
      ]

  -- `txgbe_fdir_check_cmd_complete` reports success exactly when one of the first ten reads of the
  -- command register has its command field clear.
  pub fdir_check_cmd_complete_lem :
      (fdircmd : ℕ) (hw : Hw D)
      → ((fdir_check_cmd_complete fdircmd hw).0.0 ≡ success)
        ↔ ((i : ℕ) × (i < 10) × Idle (read_at rdb_fdir_cmd i hw))
  unfolding fdir_check_cmd_complete
  fdir_check_cmd_complete_lem fdircmd hw =
      (poll_cmd-Idle 10 fdircmd hw, λ (i, h, z). poll_cmd_found 10 i fdircmd hw h z)
