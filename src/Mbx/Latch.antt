-- ===== src/Mbx/Latch.antt =====
-- The VF mailbox keeps the bits that clear when they are read, src/txgbe_mbx.c:
-- `txgbe_read_v2p_mailbox`, `txgbe_check_for_bit_vf` and the three checks.
use txgbe.Base.{
  ℕ, St, ◌≡◌, ◌<◌, refl, ap, ◌∙◌, sym, arith, bit, bit_and, bit_or, bit-bit_and, bit-bit_or,
  bit-le-one, bit-zero, nonzero, true, ◌+◌, ◌*◌, Bool-cases, inl, inr,
}
use txgbe.Hw.{Hw, Bus, Status, success}
use txgbe.Reg.{rd32, not32}
use txgbe.Reg.Frame.{rd32-mbx, wr32-mbx}
use txgbe.Reg.Merge.{bit-not32}
use txgbe.Mbx.Regs.{
  vxmailbox, vxmbmem, vxmailbox_size, vxmailbox_r2c_bits, vxmailbox_pfsts, vxmailbox_pfack,
}
use txgbe.Mbx.Stats.{count_if_success, count_reqs, count_acks}
use txgbe.Mbx.Vf.{read_v2p_mailbox, check_for_bit_vf, check_for_msg_vf, check_for_ack_vf}

module _ {D : Type 0} ⦃bus : Bus D⦄ (hw : Hw D) where
  -- What one read of the mailbox returns and what it leaves latched.
  read_v2p_mailbox_lem :
      (mirror : ℕ) × ((read_v2p_mailbox hw).0
        ≡ bit_or (bit_or (rd32 vxmailbox hw).0 hw.mbx.v2p_mailbox) mirror)
      × ((read_v2p_mailbox hw).1.mbx.v2p_mailbox
          ≡ bit_or hw.mbx.v2p_mailbox (bit_and (read_v2p_mailbox hw).0 vxmailbox_r2c_bits))
  unfolding read_v2p_mailbox
  read_v2p_mailbox_lem =
      let hw1 = (rd32 vxmailbox hw).1 in
      let mirror = vxmbmem + vxmailbox_size * 4 in
      let hw2 = (rd32 mirror hw1).1 in
      (
        (rd32 mirror hw1).0,
        ground (arith, rd32-mbx vxmailbox hw),
        ground (arith, rd32-mbx vxmailbox hw, rd32-mbx mirror hw1, wr32-mbx mirror 0 hw2),
      )

nonzero_of_bit : (k x : ℕ) → bit k x ≡ 1 → nonzero x ≡ true
nonzero_of_bit k x h = elim (Bool-cases (nonzero x)) [
  | inl t ↦ t
  | inr f ↦
      let e : x ≡ 0 = ground arith in absurd (omega (arith, sym (ap (bit k) e) ∙ h, bit-zero k))
]

-- Bit `k` is among TXGBE_VXMAILBOX_R2C_BITS.
abbrev pub IsLatched : ℕ → Type 0
IsLatched k = bit k vxmailbox_r2c_bits ≡ 1

module _ {D : Type 0} ⦃bus : Bus D⦄ (k : ℕ) (hw : Hw D) where
  -- The mailbox shows bit `k`, in the register or latched from an earlier read.
  abbrev pub IsShown : Type 0
  IsShown = bit k (bit_or (rd32 vxmailbox hw).0 hw.mbx.v2p_mailbox) ≡ 1

  read_v2p_mailbox-shown :
      IsShown
      → (bit k (read_v2p_mailbox hw).0 ≡ 1)
        × (IsLatched k → bit k (read_v2p_mailbox hw).1.mbx.v2p_mailbox ≡ 1)
  read_v2p_mailbox-shown h =
      let (mirror, value, latch) = read_v2p_mailbox_lem hw in
      let seen = bit_or (rd32 vxmailbox hw).0 hw.mbx.v2p_mailbox in
      let shown : bit k (read_v2p_mailbox hw).0 ≡ 1 =
        ap (bit k) value ∙ omega (arith, bit-bit_or k seen mirror, bit-le-one k mirror) in
      (
        shown,
        λ r2c.
            ap (bit k) latch
            ∙ omega (
              arith,
              bit-bit_or k hw.mbx.v2p_mailbox (bit_and (read_v2p_mailbox hw).0 vxmailbox_r2c_bits),
              bit-bit_and k (read_v2p_mailbox hw).0 vxmailbox_r2c_bits,
              bit-le-one k hw.mbx.v2p_mailbox,
            ),
      )

  -- A check for other bits leaves a latched bit latched.
  check_for_bit_vf-keeps :
      (mask : ℕ)
      → k < 32
      → IsLatched k
      → bit k mask ≡ 0
      → IsShown
      → bit k (check_for_bit_vf mask hw).1.mbx.v2p_mailbox ≡ 1
  unfolding check_for_bit_vf
  check_for_bit_vf-keeps mask lt r2c other h =
      let v = (read_v2p_mailbox hw).1.mbx.v2p_mailbox in
      bit-bit_and k v (not32 mask)
      ∙ omega (arith, (read_v2p_mailbox-shown h).1 r2c, bit-not32 k mask lt)

  -- A check for a bit that is shown succeeds.
  check_for_bit_vf-sees :
      (mask : ℕ) → bit k mask ≡ 1 → IsShown → (check_for_bit_vf mask hw).0 ≡ success
  unfolding check_for_bit_vf
  check_for_bit_vf-sees mask asked h = ground (
    arith,
    nonzero_of_bit k (bit_and (read_v2p_mailbox hw).0 mask)
        (bit-bit_and k (read_v2p_mailbox hw).0 mask ∙ omega (arith, (read_v2p_mailbox-shown h).0)),
  )

counted-v2p :
    {D : Type 0} (count : St (Hw D) (Unit {0})) (r : Status) (hw : Hw D)
    → (count hw).1.mbx.v2p_mailbox ≡ hw.mbx.v2p_mailbox
    → (count_if_success count r hw).1.mbx.v2p_mailbox ≡ hw.mbx.v2p_mailbox
counted-v2p count success hw h = h
counted-v2p count _ hw h = refl

counted_status :
    {D : Type 0} (count : St (Hw D) (Unit {0})) (r : Status) (hw : Hw D)
    → r ≡ success
    → (count_if_success count r hw).0 ≡ success
counted_status count success hw h = refl
counted_status count _ hw h = cc

module _ {D : Type 0} ⦃bus : Bus D⦄ (hw : Hw D) where
  shown_of_latched : (k : ℕ) → bit k hw.mbx.v2p_mailbox ≡ 1 → IsShown k hw
  shown_of_latched k h =
      bit-bit_or k (rd32 vxmailbox hw).0 hw.mbx.v2p_mailbox
      ∙ omega (arith, bit-le-one k (rd32 vxmailbox hw).0)

-- An acknowledgement that the mailbox shows is not lost to a check for a message that reads the
-- register first: the check for an acknowledgement that follows it succeeds.
pub pending_ack_survives :
    {D : Type 0} ⦃bus : Bus D⦄ (hw : Hw D)
    → IsShown 5 hw
    → (check_for_ack_vf (check_for_msg_vf hw).1).0 ≡ success
unfolding check_for_ack_vf check_for_msg_vf bit
pending_ack_survives hw ack =
    let (r, hw') = check_for_bit_vf vxmailbox_pfsts hw in
    counted_status count_acks _ _ (
      check_for_bit_vf-sees 5 _ vxmailbox_pfack refl (
        shown_of_latched _ 5 (
          ap (bit 5) (counted-v2p count_reqs r hw' refl)
          ∙ check_for_bit_vf-keeps 5 hw vxmailbox_pfsts (omega arith) refl refl ack)))

-- A message that the mailbox shows is not lost to a check for an acknowledgement: the check for a
-- message that follows it succeeds.
pub pending_msg_survives :
    {D : Type 0} ⦃bus : Bus D⦄ (hw : Hw D)
    → IsShown 4 hw
    → (check_for_msg_vf (check_for_ack_vf hw).1).0 ≡ success
unfolding check_for_ack_vf check_for_msg_vf bit
pending_msg_survives hw msg =
    let (r, hw') = check_for_bit_vf vxmailbox_pfack hw in
    counted_status count_reqs _ _ (
      check_for_bit_vf-sees 4 _ vxmailbox_pfsts refl (
        shown_of_latched _ 4 (
          ap (bit 4) (counted-v2p count_acks r hw' refl)
          ∙ check_for_bit_vf-keeps 4 hw vxmailbox_pfack (omega arith) refl refl msg)))
