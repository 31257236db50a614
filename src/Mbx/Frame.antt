-- ===== src/Mbx/Frame.antt =====
-- What the checks and locks of src/txgbe_mbx.c leave alone: the mapping of the registers, and the
-- words of the shared memory.
use txgbe.Base.{ℕ, zero, suc, ◌+◌, ◌*◌, ◌<◌, ◌≡◌, refl, ◌∙◌, arith, St}
use txgbe.Hw.{Hw, Bus, Status, success}
use txgbe.Reg.{rd32, wr32}
use txgbe.Reg.Frame.{rd32-mapped, wr32-mapped}
use txgbe.Mbx.Regs.{
  vxmailbox, vxmailbox_size, vxmailbox_vfu, vxmbmem, pxmailbox, pxmailbox_pfu, pxmbmem, mbvficr,
  mbvficr_index, vfreq_bit, vfack_bit,
}
use txgbe.Mbx.Stats.{count_if_success, count_reqs, count_acks}
use txgbe.Mbx.Vf.{
  read_v2p_mailbox, check_for_bit_vf, check_for_msg_vf, check_for_ack_vf, obtain_mbx_lock_vf,
}
use txgbe.Mbx.Pf.{check_for_bit_pf, check_for_msg_pf, check_for_ack_pf, lock_attempts}
use txgbe.Mbx.Window.{Window, rd32-word, wr32_keeps}

-- The hardware stays mapped through every step.
module _ {D : Type 0} ⦃bus : Bus D⦄ where
  pub counted-mapped :
      (count : St (Hw D) (Unit {0})) (r : Status) (hw : Hw D)
      → (count hw).1.mapped ≡ hw.mapped
      → (count_if_success count r hw).1.mapped ≡ hw.mapped
  counted-mapped count success hw h = h
  counted-mapped count _ hw h = refl

  check_for_bit_pf-mapped :
      (mask i : ℕ) (hw : Hw D) → (check_for_bit_pf mask i hw).1.mapped ≡ hw.mapped
  unfolding check_for_bit_pf
  check_for_bit_pf-mapped mask i hw =
      ground
        (arith, rd32-mapped (mbvficr i) hw, wr32-mapped (mbvficr i) mask (rd32 (mbvficr i) hw).1)

  pub check_for_msg_pf-mapped : (vf : ℕ) (hw : Hw D) → (check_for_msg_pf vf hw).1.mapped ≡ hw.mapped
  unfolding check_for_msg_pf
  check_for_msg_pf-mapped vf hw =
      counted-mapped count_reqs _ (check_for_bit_pf (vfreq_bit vf) (mbvficr_index vf) hw).1 refl
      ∙ check_for_bit_pf-mapped (vfreq_bit vf) (mbvficr_index vf) hw

  pub check_for_ack_pf-mapped : (vf : ℕ) (hw : Hw D) → (check_for_ack_pf vf hw).1.mapped ≡ hw.mapped
  unfolding check_for_ack_pf
  check_for_ack_pf-mapped vf hw =
      counted-mapped count_acks _ (check_for_bit_pf (vfack_bit vf) (mbvficr_index vf) hw).1 refl
      ∙ check_for_bit_pf-mapped (vfack_bit vf) (mbvficr_index vf) hw

  pub lock_attempts-mapped : (vf n : ℕ) (hw : Hw D) → (lock_attempts vf n hw).1.mapped ≡ hw.mapped
  unfolding lock_attempts
  lock_attempts-mapped vf zero hw = refl
  lock_attempts-mapped vf (suc n) hw =
      let hw1 = (wr32 (pxmailbox vf) pxmailbox_pfu hw).1 in
      ground (
        arith,
        wr32-mapped (pxmailbox vf) pxmailbox_pfu hw,
        rd32-mapped (pxmailbox vf) hw1,
        lock_attempts-mapped vf n (rd32 (pxmailbox vf) hw1).1,
      )

  pub read_v2p_mailbox-mapped : (hw : Hw D) → (read_v2p_mailbox hw).1.mapped ≡ hw.mapped
  unfolding read_v2p_mailbox
  read_v2p_mailbox-mapped hw =
      let hw1 = (rd32 vxmailbox hw).1 in
      let mirror = vxmbmem + vxmailbox_size * 4 in
      let hw2 = (rd32 mirror hw1).1 in
      wr32-mapped mirror 0 hw2 ∙ rd32-mapped mirror hw1 ∙ rd32-mapped vxmailbox hw

  pub check_for_msg_vf-mapped : (hw : Hw D) → (check_for_msg_vf hw).1.mapped ≡ hw.mapped
  unfolding check_for_msg_vf check_for_bit_vf
  check_for_msg_vf-mapped hw = counted-mapped count_reqs _ _ refl ∙ read_v2p_mailbox-mapped hw

  pub check_for_ack_vf-mapped : (hw : Hw D) → (check_for_ack_vf hw).1.mapped ≡ hw.mapped
  unfolding check_for_ack_vf check_for_bit_vf
  check_for_ack_vf-mapped hw = counted-mapped count_acks _ _ refl ∙ read_v2p_mailbox-mapped hw

  pub obtain_mbx_lock_vf-mapped : (hw : Hw D) → (obtain_mbx_lock_vf hw).1.mapped ≡ hw.mapped
  unfolding obtain_mbx_lock_vf
  obtain_mbx_lock_vf-mapped hw =
      read_v2p_mailbox-mapped (wr32 vxmailbox vxmailbox_vfu hw).1
      ∙ wr32-mapped vxmailbox vxmailbox_vfu hw

-- The words below the mirror are untouched by the VF's lock and by the PF's.
module _ {D : Type 0} ⦃bus : Bus D⦄ {word : ℕ → D → ℕ} where
  pub obtain_mbx_lock_vf-word :
      Window bus vxmbmem word
      → (j : ℕ) (hw : Hw D) → j < 15
      → word j (obtain_mbx_lock_vf hw).1.dev ≡ word j hw.dev
  unfolding obtain_mbx_lock_vf read_v2p_mailbox
  obtain_mbx_lock_vf-word w j hw lt =
      let hw0 = (wr32 vxmailbox vxmailbox_vfu hw).1 in
      let hw1 = (rd32 vxmailbox hw0).1 in
      let mirror = vxmbmem + vxmailbox_size * 4 in
      let hw2 = (rd32 mirror hw1).1 in
      wr32_keeps w j mirror 0 hw2 (omega arith) (omega arith)
      ∙ rd32-word w j mirror hw1
      ∙ rd32-word w j vxmailbox hw0
      ∙ wr32_keeps w j vxmailbox vxmailbox_vfu hw (omega arith) (omega arith)

  pub lock_attempts-word :
      (vf : ℕ)
      → Window bus (pxmbmem vf) word
      → (n j : ℕ) (hw : Hw D) → j < 16
      → word j (lock_attempts vf n hw).1.dev ≡ word j hw.dev
  unfolding lock_attempts
  lock_attempts-word vf w zero j hw lt = refl
  lock_attempts-word vf w (suc n) j hw lt =
      let hw1 = (wr32 (pxmailbox vf) pxmailbox_pfu hw).1 in
      ground (
        arith,
        wr32_keeps w j (pxmailbox vf) pxmailbox_pfu hw lt (omega arith),
        rd32-word w j (pxmailbox vf) hw1,
        lock_attempts-word vf w n j (rd32 (pxmailbox vf) hw1).1 lt,
      )
