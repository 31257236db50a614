-- ===== src/Examples/Mailbox.antt =====
-- The theorems on the mailbox at concrete devices and messages.
use txgbe.Base.{ℕ, suc, ◌<◌, ◌≡◌, ◌≢◌, ◌⊎◌, refl, bit, List, [], ◌∷◌, get_or, some, arith}
use txgbe.Hw.{Hw, Status, success, err_mbx, pf_side}
use txgbe.Reg.{rd32, wr32}
use txgbe.Mbx.Stats.{copy_out}
use txgbe.Mbx.Vf.{
  check_for_msg_vf, check_for_ack_vf, read_v2p_mailbox, obtain_mbx_lock_vf, send_vf, write_mbx_vf,
  receive_vf, read_mbx_vf,
}
use txgbe.Mbx.Pf.{
  check_for_msg_pf, check_for_ack_pf, check_for_bit_pf, obtain_mbx_lock_pf, lock_attempts, send_pf,
  write_mbx_pf, receive_pf, read_mbx_pf,
}
use txgbe.Mbx.Ops.{
  call_write, call_check_for_ack, check_for_msg, check_for_ack, poll, poll_for_msg, poll_for_ack,
  write_posted_mbx,
}
use txgbe.Mbx.Delivery.{pf_to_vf_delivery, vf_to_pf_delivery}
use txgbe.Mbx.Latch.{IsShown, pending_ack_survives, pending_msg_survives}
use txgbe.Mbx.Poll.{poll_for_msg_lem, check_at, after_checks}
use txgbe.Mbx.Posted.{written, write_posted_mbx_success}
use txgbe.Mbx.Regs.{mbvficr, vfack_bit}
use txgbe.Examples.Device.{
  Memory, zeros, update, ram_bus, vf_bus, pf_bus-Window, vf_bus-Window, hw_over,
}

abbrev message : List ℕ
message = 7 ∷ 9 ∷ []

abbrev buffer : List ℕ
buffer = 0 ∷ 0 ∷ []

abbrev pf_hw : Hw Memory
pf_hw = hw_over zeros

abbrev pf_sent_hw : Hw Memory
pf_sent_hw = (write_mbx_pf ⦃bus = ram_bus⦄ message 2 0 pf_hw).1

pf_sent : (write_mbx_pf ⦃bus = ram_bus⦄ message 2 0 pf_hw).0 ≡ success
unfolding write_mbx_pf obtain_mbx_lock_pf lock_attempts send_pf rd32 wr32
pf_sent = refl

vf_received : (read_mbx_vf ⦃bus = vf_bus⦄ buffer 2 (hw_over pf_sent_hw.dev)).0.0 ≡ success
unfolding read_mbx_vf obtain_mbx_lock_vf receive_vf read_v2p_mailbox rd32 wr32 write_mbx_pf
    obtain_mbx_lock_pf lock_attempts send_pf check_for_msg_pf check_for_ack_pf check_for_bit_pf
    copy_out
vf_received = refl

pf_to_vf_delivery_example :
    get_or (read_mbx_vf ⦃bus = vf_bus⦄ buffer 2 (hw_over pf_sent_hw.dev)).0.1 1 0 ≡ 9
pf_to_vf_delivery_example =
    pf_to_vf_delivery ram_bus vf_bus 0 pf_bus-Window vf_bus-Window message buffer 2 1 pf_hw
      (hw_over pf_sent_hw.dev) refl refl (omega arith) (omega arith) (omega arith) pf_sent refl
      vf_received

abbrev vf_sent_hw : Hw Memory
vf_sent_hw = (write_mbx_vf ⦃bus = vf_bus⦄ message 2 (hw_over zeros)).1

vf_sent : (write_mbx_vf ⦃bus = vf_bus⦄ message 2 (hw_over zeros)).0 ≡ success
unfolding write_mbx_vf obtain_mbx_lock_vf send_vf read_v2p_mailbox rd32 wr32
vf_sent = refl

pf_received : (read_mbx_pf ⦃bus = ram_bus⦄ buffer 2 0 (hw_over vf_sent_hw.dev)).0.0 ≡ success
unfolding read_mbx_pf obtain_mbx_lock_pf lock_attempts receive_pf rd32 wr32
pf_received = refl

vf_to_pf_delivery_example :
    get_or (read_mbx_pf ⦃bus = ram_bus⦄ buffer 2 0 (hw_over vf_sent_hw.dev)).0.1 0 0 ≡ 7
vf_to_pf_delivery_example =
    vf_to_pf_delivery ram_bus vf_bus 0 pf_bus-Window vf_bus-Window message buffer 2 0
      (hw_over vf_sent_hw.dev) (hw_over zeros) refl refl (omega arith) (omega arith) (omega arith)
      vf_sent refl pf_received

-- Both the message and the acknowledgement bit show in the register.
abbrev shown_hw : Hw Memory
shown_hw = hw_over (update 0x100600 0x30 zeros)

shown_bits : (IsShown ⦃bus = vf_bus⦄ 4 shown_hw) × (IsShown ⦃bus = vf_bus⦄ 5 shown_hw)
unfolding bit rd32
shown_bits = (refl, refl)

pending_ack_survives_example :
    (check_for_ack_vf ⦃bus = vf_bus⦄ (check_for_msg_vf ⦃bus = vf_bus⦄ shown_hw).1).0 ≡ success
pending_ack_survives_example = pending_ack_survives ⦃bus = vf_bus⦄ shown_hw shown_bits.1

pending_msg_survives_example :
    (check_for_msg_vf ⦃bus = vf_bus⦄ (check_for_ack_vf ⦃bus = vf_bus⦄ shown_hw).1).0 ≡ success
pending_msg_survives_example = pending_msg_survives ⦃bus = vf_bus⦄ shown_hw shown_bits.0

poll_for_msg_lem_example :
    ((k : ℕ) × (k < 3)
      × ((j : ℕ) → j < k → check_at (check_for_msg ⦃bus = ram_bus⦄ 0) j pf_hw ≢ success)
      × (check_at (check_for_msg ⦃bus = ram_bus⦄ 0) k pf_hw ≡ success)
      × (poll_for_msg ⦃bus = ram_bus⦄ 0 pf_hw
          ≡ (success, after_checks (check_for_msg ⦃bus = ram_bus⦄ 0) (suc k) pf_hw)))
    ⊎ (((j : ℕ) → j < 3 → check_at (check_for_msg ⦃bus = ram_bus⦄ 0) j pf_hw ≢ success)
        × (poll_for_msg ⦃bus = ram_bus⦄ 0 pf_hw
            ≡ (err_mbx, after_checks (check_for_msg ⦃bus = ram_bus⦄ 0) 3 pf_hw)))
poll_for_msg_lem_example = poll_for_msg_lem ⦃bus = ram_bus⦄ 0 pf_hw refl

-- A VF that has its acknowledgement pending when the PF sends.
abbrev acked_hw : Hw Memory
acked_hw = hw_over (update (mbvficr 0) (vfack_bit 0) zeros)

posted : (write_posted_mbx ⦃bus = ram_bus⦄ message 2 0 acked_hw).0 ≡ success
unfolding write_posted_mbx call_write write_mbx_pf obtain_mbx_lock_pf lock_attempts send_pf
    check_for_msg_pf check_for_ack_pf check_for_bit_pf copy_out poll_for_ack poll check_for_ack
    call_check_for_ack rd32 wr32
posted = refl

abbrev posted_write : Status × Hw Memory
posted_write = written ⦃bus = ram_bus⦄ message 2 0 acked_hw

posted_ops : posted_write.1.mbx.ops.check_for_ack ≡ some pf_side
unfolding call_write write_mbx_pf obtain_mbx_lock_pf lock_attempts send_pf check_for_msg_pf
    check_for_ack_pf check_for_bit_pf copy_out rd32 wr32
posted_ops = refl

write_posted_mbx_success_example :
    (0 < 3)
    × (posted_write.0 ≡ success)
    × ((k : ℕ) × (k < posted_write.1.mbx.timeout)
        × (check_at (check_for_ack ⦃bus = ram_bus⦄ 0) k posted_write.1 ≡ success)
        × ((write_posted_mbx ⦃bus = ram_bus⦄ message 2 0 acked_hw).1
            ≡ after_checks (check_for_ack ⦃bus = ram_bus⦄ 0) (suc k) posted_write.1))
write_posted_mbx_success_example =
    write_posted_mbx_success ⦃bus = ram_bus⦄ message 2 0 acked_hw posted_ops posted
