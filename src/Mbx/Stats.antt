-- ===== src/Mbx/Stats.antt =====
-- The counters of `hw->mbx.stats` and the copies between a message and the mailbox memory, which
-- both ends of src/txgbe_mbx.c share.
use txgbe.Base.{ℕ, zero, suc, ◌+◌, ◌%◌, ◌^◌, List, get_or, set, St, pure, ◌>>=◌, ◌>>◌}
use txgbe.Hw.{Hw, Bus, MbxStats, Status, success, err_mbx}
use txgbe.Reg.{rd32a, wr32a}

-- `x++` on u32.
abbrev pub inc32 : ℕ → ℕ
inc32 x = (x + 1) % 2 ^ 32

-- `if (err) goto out;`
abbrev pub if_ok : {A : Type 0} → Status → (Status → A) → A → A
if_ok success fail go = go
if_ok r fail go = fail r

abbrev on_stats : {D : Type 0} → (MbxStats → MbxStats) → St (Hw D) (Unit {0})
on_stats f hw = (tt, record hw { mbx = record (hw.mbx) { stats = f hw.mbx.stats } })

module _ {D : Type 0} where
  abbrev pub count_msgs_tx : St (Hw D) (Unit {0})
  count_msgs_tx = on_stats (λ s. record s { msgs_tx = inc32 s.msgs_tx })

  abbrev pub count_msgs_rx : St (Hw D) (Unit {0})
  count_msgs_rx = on_stats (λ s. record s { msgs_rx = inc32 s.msgs_rx })

  abbrev pub count_reqs : St (Hw D) (Unit {0})
  count_reqs = on_stats (λ s. record s { reqs = inc32 s.reqs })

  abbrev pub count_acks : St (Hw D) (Unit {0})
  count_acks = on_stats (λ s. record s { acks = inc32 s.acks })

  abbrev pub count_rsts : St (Hw D) (Unit {0})
  count_rsts = on_stats (λ s. record s { rsts = inc32 s.rsts })

-- `int err = TXGBE_ERR_MBX; if (!check) { err = 0; count++; } return err;`
abbrev pub count_if_success : {D : Type 0} → St (Hw D) (Unit {0}) → Status → St (Hw D) Status
count_if_success count success = count >> pure success
count_if_success count _ = pure err_mbx

module _ {D : Type 0} ⦃bus : Bus D⦄ where
  -- `for (i = 0; i < size; i++) wr32a(hw, mem, i, msg[i]);` with `n` rounds left. A word beyond the
  -- caller's buffer reads as 0 here; C leaves it undefined.
  unfoldable pub copy_out : ℕ → List ℕ → ℕ → ℕ → St (Hw D) (Unit {0})
  copy_out mem msg i zero = pure tt
  copy_out mem msg i (suc n) = do wr32a mem i (get_or msg i 0); copy_out mem msg (i + 1) n

  -- `for (i = 0; i < size; i++) msg[i] = rd32a(hw, mem, i);` with `n` rounds left.
  unfoldable pub copy_in : ℕ → List ℕ → ℕ → ℕ → St (Hw D) (List ℕ)
  copy_in mem msg i zero = pure msg
  copy_in mem msg i (suc n) = do v ← rd32a mem i; copy_in mem (set msg i v) (i + 1) n
