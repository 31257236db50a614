-- ===== src/Mbx/Ops.antt =====
-- The generic mailbox calls of src/txgbe_mbx.c, which go through the function pointers of
-- `hw->mbx.ops`: `txgbe_read_mbx` to `txgbe_init_mbx_ops`, and the two `txgbe_init_mbx_params`.
use txgbe.Base.{
  ℕ, zero, suc, true, ◌==◌, ltb, if◌then◌else◌, Option, none, some, List, St, pure, ◌>>=◌, get,
}
use txgbe.Hw.{Hw, Bus, Status, success, err_mbx, not_implemented, Side, vf_side, pf_side, MbxOps}
use txgbe.Hw.{MbxStats}
use txgbe.Mbx.Regs.{vxmailbox_size, vf_mbx_init_timeout, vf_mbx_init_delay}
use txgbe.Mbx.Stats.{if_ok}
use txgbe.Mbx.Vf.{check_for_msg_vf, check_for_ack_vf, check_for_rst_vf, write_mbx_vf, read_mbx_vf}
use txgbe.Mbx.Pf.{check_for_msg_pf, check_for_ack_pf, check_for_rst_pf, write_mbx_pf, read_mbx_pf}

-- `return countdown ? 0 : TXGBE_ERR_MBX;`
abbrev pub countdown_status : ℕ → Status
countdown_status countdown = if countdown == 0 then err_mbx else success

module _ {D : Type 0} ⦃bus : Bus D⦄ where
  -- TCALL through each pointer.
  unfoldable pub call_read : Option Side → List ℕ → ℕ → ℕ → St (Hw D) (Status × List ℕ)
  call_read none msg size mbx_id = pure (not_implemented, msg)
  call_read (some vf_side) msg size mbx_id = read_mbx_vf msg size
  call_read (some pf_side) msg size mbx_id = read_mbx_pf msg size mbx_id

  unfoldable pub call_write : Option Side → List ℕ → ℕ → ℕ → St (Hw D) Status
  call_write none msg size mbx_id = pure not_implemented
  call_write (some vf_side) msg size mbx_id = write_mbx_vf msg size
  call_write (some pf_side) msg size mbx_id = write_mbx_pf msg size mbx_id

  unfoldable pub call_check_for_msg : Option Side → ℕ → St (Hw D) Status
  call_check_for_msg none mbx_id = pure not_implemented
  call_check_for_msg (some vf_side) mbx_id = check_for_msg_vf
  call_check_for_msg (some pf_side) mbx_id = check_for_msg_pf mbx_id

  unfoldable pub call_check_for_ack : Option Side → ℕ → St (Hw D) Status
  call_check_for_ack none mbx_id = pure not_implemented
  call_check_for_ack (some vf_side) mbx_id = check_for_ack_vf
  call_check_for_ack (some pf_side) mbx_id = check_for_ack_pf mbx_id

  unfoldable pub read_mbx : List ℕ → ℕ → ℕ → St (Hw D) (Status × List ℕ)
  read_mbx msg size mbx_id = do
    hw ← get
    let size' = if ltb hw.mbx.size size then hw.mbx.size else size
    call_read hw.mbx.ops.read msg size' mbx_id

  unfoldable pub write_mbx : List ℕ → ℕ → ℕ → St (Hw D) Status
  write_mbx msg size mbx_id = do
    hw ← get
    if ltb hw.mbx.size size then pure err_mbx else call_write hw.mbx.ops.write msg size mbx_id

  unfoldable pub check_for_msg : ℕ → St (Hw D) Status
  check_for_msg mbx_id = do hw ← get; call_check_for_msg hw.mbx.ops.check_for_msg mbx_id

  unfoldable pub check_for_ack : ℕ → St (Hw D) Status
  check_for_ack mbx_id = do hw ← get; call_check_for_ack hw.mbx.ops.check_for_ack mbx_id

  -- The one check that tests the pointer itself, so that a null one is an ordinary error.
  unfoldable pub call_check_for_rst : Option Side → ℕ → St (Hw D) Status
  call_check_for_rst none mbx_id = pure err_mbx
  call_check_for_rst (some vf_side) mbx_id = check_for_rst_vf
  call_check_for_rst (some pf_side) mbx_id = check_for_rst_pf mbx_id

  unfoldable pub check_for_rst : ℕ → St (Hw D) Status
  check_for_rst mbx_id = do hw ← get; call_check_for_rst hw.mbx.ops.check_for_rst mbx_id

  -- `while (countdown && check() != 0) { countdown--; if (!countdown) break; udelay(); }`, which
  -- gives the final countdown.
  unfoldable pub poll : St (Hw D) Status → ℕ → St (Hw D) ℕ
  poll check zero = pure zero
  poll check (suc countdown) = do
    r ← check
    let again = poll check countdown
    if_ok r (λ _. again) (pure (suc countdown))

  -- `if (!countdown || !op) goto out;` in front of the loop.
  abbrev pub poll_if_set : Option Side → St (Hw D) Status → ℕ → St (Hw D) ℕ
  poll_if_set none check countdown = pure countdown
  poll_if_set (some _) check countdown = poll check countdown

  unfoldable pub poll_for_msg : ℕ → St (Hw D) Status
  poll_for_msg mbx_id = do
    hw ← get
    countdown ← poll_if_set hw.mbx.ops.check_for_msg (check_for_msg mbx_id) hw.mbx.timeout
    pure (countdown_status countdown)

  unfoldable pub poll_for_ack : ℕ → St (Hw D) Status
  poll_for_ack mbx_id = do
    hw ← get
    countdown ← poll_if_set hw.mbx.ops.check_for_ack (check_for_ack mbx_id) hw.mbx.timeout
    pure (countdown_status countdown)

  abbrev pub read_posted_if_set : Option Side → List ℕ → ℕ → ℕ → St (Hw D) (Status × List ℕ)
  read_posted_if_set none msg size mbx_id = pure (err_mbx, msg)
  read_posted_if_set (some side) msg size mbx_id = do
    err ← poll_for_msg mbx_id
    hw ← get
    if_ok err (λ e. pure (e, msg)) (call_read hw.mbx.ops.read msg size mbx_id)

  unfoldable pub read_posted_mbx : List ℕ → ℕ → ℕ → St (Hw D) (Status × List ℕ)
  read_posted_mbx msg size mbx_id = do hw ← get; read_posted_if_set hw.mbx.ops.read msg size mbx_id

  unfoldable pub write_posted_mbx : List ℕ → ℕ → ℕ → St (Hw D) Status
  write_posted_mbx msg size mbx_id = do
    hw ← get
    if hw.mbx.timeout == 0 then pure err_mbx else (do
      err ← call_write hw.mbx.ops.write msg size mbx_id
      if_ok err pure (poll_for_ack mbx_id))

module _ {D : Type 0} where
  unfoldable pub init_mbx_ops : St (Hw D) (Unit {0})
  init_mbx_ops hw = (
    tt,
    record hw {
      mbx = record (hw.mbx) {
        ops = record (hw.mbx.ops) { read_posted = true; write_posted = true };
      };
    },
  )

abbrev all_ops : Side → MbxOps
all_ops s = record {
  read = some s;
  write = some s;
  read_posted = true;
  write_posted = true;
  check_for_msg = some s;
  check_for_ack = some s;
  check_for_rst = some s;
}

abbrev no_stats : MbxStats
no_stats = record { msgs_tx = 0; msgs_rx = 0; acks = 0; reqs = 0; rsts = 0 }

module _ {D : Type 0} where
  -- The VF starts as timed out.
  unfoldable pub init_mbx_params_vf : St (Hw D) (Unit {0})
  init_mbx_params_vf hw = (
    tt,
    record hw {
      mbx = record (hw.mbx) {
        timeout = 0;
        udelay = vf_mbx_init_delay;
        size = vxmailbox_size;
        ops = all_ops vf_side;
        stats = no_stats;
      };
    },
  )

  unfoldable pub init_mbx_params_pf : St (Hw D) (Unit {0})
  init_mbx_params_pf hw = (
    tt,
    record hw {
      mbx = record (hw.mbx) {
        timeout = vf_mbx_init_timeout;
        udelay = vf_mbx_init_delay;
        size = vxmailbox_size;
        ops = all_ops pf_side;
        stats = no_stats;
      };
    },
  )
