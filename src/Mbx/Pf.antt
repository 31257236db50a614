-- ===== src/Mbx/Pf.antt =====
-- The PF end of the mailbox, src/txgbe_mbx.c: `txgbe_check_for_bit_pf` to `txgbe_read_mbx_pf`.
use txgbe.Base.{
  ℕ, zero, suc, ◌%◌, ◌^◌, bit_and, ltb, nonzero, if◌then◌else◌, List, St, pure, ◌>>=◌, ◌>>◌, get,
}
use txgbe.Hw.{Hw, Bus, Status, success, err_mbx}
use txgbe.Reg.{rd32, wr32, wr32a}
use txgbe.Mbx.Regs.{
  vxmailbox_size, pxmailbox, pxmailbox_sts, pxmailbox_ack, pxmailbox_pfu, pxmbmem, vflre, vflrec,
  mbvficr, mbvficr_index, vfreq_bit, vfack_bit,
}
use txgbe.Mbx.Stats.{
  if_ok, count_if_success, count_msgs_tx, count_msgs_rx, count_reqs, count_acks, count_rsts,
  copy_out, copy_in,
}

module _ {D : Type 0} ⦃bus : Bus D⦄ where
  unfoldable pub check_for_bit_pf : ℕ → ℕ → St (Hw D) Status
  check_for_bit_pf mask index = do
    bits ← rd32 (mbvficr index)
    if nonzero (bit_and bits mask)
        then (do wr32 (mbvficr index) mask; pure success)
        else pure err_mbx

  unfoldable pub check_for_msg_pf : ℕ → St (Hw D) Status
  check_for_msg_pf vf = do
    r ← check_for_bit_pf (vfreq_bit vf) (mbvficr_index vf)
    count_if_success count_reqs r

  unfoldable pub check_for_ack_pf : ℕ → St (Hw D) Status
  check_for_ack_pf vf = do
    r ← check_for_bit_pf (vfack_bit vf) (mbvficr_index vf)
    count_if_success count_acks r

  unfoldable pub check_for_rst_pf : ℕ → St (Hw D) Status
  check_for_rst_pf vf = do
    let reg_offset : ℕ = if ltb vf 32 then 0 else 1
    let vf_bit = 2 ^ (vf % 32)
    bits ← rd32 (vflre reg_offset)
    if nonzero (bit_and bits vf_bit)
        then (do wr32 (vflrec reg_offset) vf_bit; count_rsts; pure success)
        else pure err_mbx

  -- The `while (countdown--)` loop.
  unfoldable pub lock_attempts : ℕ → ℕ → St (Hw D) Status
  lock_attempts vf zero = pure err_mbx
  lock_attempts vf (suc countdown) = do
    wr32 (pxmailbox vf) pxmailbox_pfu
    mailbox ← rd32 (pxmailbox vf)
    let again = lock_attempts vf countdown
    if nonzero (bit_and mailbox pxmailbox_pfu) then pure success else again

  unfoldable pub obtain_mbx_lock_pf : ℕ → St (Hw D) Status
  obtain_mbx_lock_pf vf = do hw ← get; lock_attempts vf hw.mbx.timeout

  -- The body of `txgbe_write_mbx_pf` behind the lock.
  unfoldable pub send_pf : List ℕ → ℕ → ℕ → St (Hw D) Status
  send_pf msg size vf = do
    _ ← check_for_msg_pf vf
    _ ← check_for_ack_pf vf
    copy_out (pxmbmem vf) msg 0 size
    wr32a (pxmbmem vf) vxmailbox_size pxmailbox_sts
    wr32 (pxmailbox vf) pxmailbox_sts
    count_msgs_tx
    pure success

  unfoldable pub write_mbx_pf : List ℕ → ℕ → ℕ → St (Hw D) Status
  write_mbx_pf msg size vf = do err ← obtain_mbx_lock_pf vf; if_ok err pure (send_pf msg size vf)

  -- The body of `txgbe_read_mbx_pf` behind the lock.
  unfoldable pub receive_pf : List ℕ → ℕ → ℕ → St (Hw D) (Status × List ℕ)
  receive_pf msg size vf = do
    msg' ← copy_in (pxmbmem vf) msg 0 size
    wr32a (pxmbmem vf) vxmailbox_size pxmailbox_ack
    wr32 (pxmailbox vf) pxmailbox_ack
    count_msgs_rx
    pure (success, msg')

  -- Returns the status and the caller's buffer, which stays as it was on an error.
  unfoldable pub read_mbx_pf : List ℕ → ℕ → ℕ → St (Hw D) (Status × List ℕ)
  read_mbx_pf msg size vf = do
    err ← obtain_mbx_lock_pf vf
    if_ok err (λ e. pure (e, msg)) (receive_pf msg size vf)
