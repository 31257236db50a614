-- ===== src/Mbx/Vf.antt =====
-- The VF end of the mailbox, src/txgbe_mbx.c: `txgbe_read_v2p_mailbox` to `txgbe_read_mbx_vf`.
use txgbe.Base.{ℕ, bit_and, bit_or, nonzero, if◌then◌else◌, List, St, pure, ◌>>=◌, ◌>>◌, get}
use txgbe.Hw.{Hw, Bus, Status, success, err_mbx}
use txgbe.Reg.{rd32, wr32, rd32a, wr32a, not32}
use txgbe.Mbx.Regs.{
  vxmailbox, vxmailbox_size, vxmailbox_req, vxmailbox_ack, vxmailbox_vfu, vxmailbox_pfsts,
  vxmailbox_pfack, vxmailbox_rsti, vxmailbox_rstd, vxmailbox_r2c_bits, vxmbmem,
}
use txgbe.Mbx.Stats.{
  if_ok, count_if_success, count_msgs_tx, count_msgs_rx, count_reqs, count_acks, count_rsts,
  copy_out, copy_in,
}

abbrev pub set_v2p : {D : Type 0} → ℕ → St (Hw D) (Unit {0})
set_v2p v hw = (tt, record hw { mbx = record (hw.mbx) { v2p_mailbox = v } })

module _ {D : Type 0} ⦃bus : Bus D⦄ where
  unfoldable pub read_v2p_mailbox : St (Hw D) ℕ
  read_v2p_mailbox = do
    reg ← rd32 vxmailbox
    hw ← get
    let latched = bit_or reg hw.mbx.v2p_mailbox
    mirror ← rd32a vxmbmem vxmailbox_size
    let v2p_mailbox = bit_or latched mirror
    wr32a vxmbmem vxmailbox_size 0
    set_v2p (bit_or hw.mbx.v2p_mailbox (bit_and v2p_mailbox vxmailbox_r2c_bits))
    pure v2p_mailbox

  unfoldable pub check_for_bit_vf : ℕ → St (Hw D) Status
  check_for_bit_vf mask = do
    mailbox ← read_v2p_mailbox
    hw ← get
    set_v2p (bit_and hw.mbx.v2p_mailbox (not32 mask))
    pure (if nonzero (bit_and mailbox mask) then success else err_mbx)

  unfoldable pub check_for_msg_vf : St (Hw D) Status
  check_for_msg_vf = do r ← check_for_bit_vf vxmailbox_pfsts; count_if_success count_reqs r

  unfoldable pub check_for_ack_vf : St (Hw D) Status
  check_for_ack_vf = do r ← check_for_bit_vf vxmailbox_pfack; count_if_success count_acks r

  unfoldable pub check_for_rst_vf : St (Hw D) Status
  check_for_rst_vf = do
    r ← check_for_bit_vf (bit_or vxmailbox_rstd vxmailbox_rsti)
    count_if_success count_rsts r

  unfoldable pub obtain_mbx_lock_vf : St (Hw D) Status
  obtain_mbx_lock_vf = do
    wr32 vxmailbox vxmailbox_vfu
    mailbox ← read_v2p_mailbox
    pure (if nonzero (bit_and mailbox vxmailbox_vfu) then success else err_mbx)

  -- The body of `txgbe_write_mbx_vf` behind the lock.
  unfoldable pub send_vf : List ℕ → ℕ → St (Hw D) Status
  send_vf msg size = do
    _ ← check_for_msg_vf
    _ ← check_for_ack_vf
    copy_out vxmbmem msg 0 size
    count_msgs_tx
    wr32 vxmailbox vxmailbox_req
    pure success

  unfoldable pub write_mbx_vf : List ℕ → ℕ → St (Hw D) Status
  write_mbx_vf msg size = do err ← obtain_mbx_lock_vf; if_ok err pure (send_vf msg size)

  -- The body of `txgbe_read_mbx_vf` behind the lock.
  unfoldable pub receive_vf : List ℕ → ℕ → St (Hw D) (Status × List ℕ)
  receive_vf msg size = do
    msg' ← copy_in vxmbmem msg 0 size
    wr32 vxmailbox vxmailbox_ack
    count_msgs_rx
    pure (success, msg')

  -- Returns the status and the caller's buffer, which stays as it was on an error.
  unfoldable pub read_mbx_vf : List ℕ → ℕ → St (Hw D) (Status × List ℕ)
  read_mbx_vf msg size = do
    err ← obtain_mbx_lock_vf
    if_ok err (λ e. pure (e, msg)) (receive_vf msg size)
