-- ===== src/Mbx/Delivery.antt =====
-- A message written at one end of the mailbox is read at the other, src/txgbe_mbx.c:
-- `txgbe_write_mbx_pf` with `txgbe_read_mbx_vf`, and `txgbe_write_mbx_vf` with `txgbe_read_mbx_pf`.
use txgbe.Base.{
  ℕ, ◌+◌, ◌*◌, ◌≤◌, ◌<◌, ◌≡◌, refl, ap, ◌∙◌, sym, arith, true, List, get_or, length, pure, St, inl,
  inr,
}
use txgbe.Hw.{Hw, Bus, Status, success}
use txgbe.Reg.{wr32}
use txgbe.Mbx.Regs.{
  vxmailbox, vxmailbox_size, vxmailbox_req, vxmbmem, pxmailbox, pxmailbox_sts, pxmbmem,
}
use txgbe.Mbx.Stats.{if_ok, copy_out}
use txgbe.Mbx.Vf.{
  check_for_msg_vf, check_for_ack_vf, obtain_mbx_lock_vf, send_vf, write_mbx_vf, receive_vf,
  read_mbx_vf,
}
use txgbe.Mbx.Pf.{
  check_for_msg_pf, check_for_ack_pf, obtain_mbx_lock_pf, send_pf, write_mbx_pf, receive_pf,
  read_mbx_pf,
}
use txgbe.Mbx.Poll.{Status-cases, if_ok-success, if_ok-failure}
use txgbe.Mbx.Window.{Window, wr32_keeps, copy_out-word, copy_in-word}
use txgbe.Mbx.Frame.{
  check_for_msg_vf-mapped, check_for_ack_vf-mapped, check_for_msg_pf-mapped,
  check_for_ack_pf-mapped, lock_attempts-mapped, obtain_mbx_lock_vf-mapped, obtain_mbx_lock_vf-word,
  lock_attempts-word,
}

-- What follows a lock has run if the call returned success.
locked :
    {S A : Type 0} (status : A → Status) (r : Status) (fail : Status → St S A) (go : St S A) (s : S)
    → ((e : Status) → status (fail e s).0 ≡ e)
    → status (if_ok r fail go s).0 ≡ success
    → if_ok r fail go s ≡ go s
locked {S} {A} status r fail go s reports h = elim (Status-cases r) [
  | inl ok ↦ ap (λ (m : St S A). m s) (if_ok-success r fail go ok)
  | inr bad ↦ absurd (
      bad (
        sym (reports r)
        ∙ ap (λ (m : St S A). status (m s).0) (sym (if_ok-failure r fail go bad))
        ∙ h))
]

-- The PF's two routines.
module _ {D : Type 0} ⦃bus : Bus D⦄ {word : ℕ → D → ℕ} (vf : ℕ) (w : Window bus (pxmbmem vf) word)
    (msg : List ℕ) (n j : ℕ) (below : j < n) (fits : n ≤ 15) where
  send_pf-word :
      (hw : Hw D) → hw.mapped ≡ true → word j (send_pf msg n vf hw).1.dev ≡ get_or msg j 0
  unfolding send_pf
  send_pf-word hw mapped =
      let hw1 = (check_for_msg_pf vf hw).1 in
      let hw2 = (check_for_ack_pf vf hw1).1 in
      let hw3 = (copy_out (pxmbmem vf) msg 0 n hw2).1 in
      let mirror = pxmbmem vf + vxmailbox_size * 4 in
      let hw4 = (wr32 mirror pxmailbox_sts hw3).1 in
      wr32_keeps w j (pxmailbox vf) pxmailbox_sts hw4 (omega arith) (omega arith)
      ∙ wr32_keeps w j mirror pxmailbox_sts hw3 (omega arith) (omega arith)
      ∙ copy_out-word w msg 0 n j hw2
          (check_for_ack_pf-mapped vf hw1 ∙ check_for_msg_pf-mapped vf hw ∙ mapped) (omega arith)
          (omega arith) (omega arith)

  write_mbx_pf-word :
      (hw : Hw D)
      → hw.mapped ≡ true
      → (write_mbx_pf msg n vf hw).0 ≡ success
      → word j (write_mbx_pf msg n vf hw).1.dev ≡ get_or msg j 0
  unfolding write_mbx_pf
  write_mbx_pf-word hw mapped ok =
      let hw' = (obtain_mbx_lock_pf vf hw).1 in
      ap (λ (r : Status × Hw D). word j r.1.dev)
        (locked (λ (a : Status). a) (obtain_mbx_lock_pf vf hw).0 pure (send_pf msg n vf) hw'
          (λ e. refl) ok)
      ∙ send_pf-word hw'
          (unfold obtain_mbx_lock_pf in lock_attempts-mapped vf hw.mbx.timeout hw ∙ mapped)

module _ {D : Type 0} ⦃bus : Bus D⦄ {word : ℕ → D → ℕ} (vf : ℕ) (w : Window bus (pxmbmem vf) word)
    (buf : List ℕ) (n j : ℕ) (hw : Hw D) (mapped : hw.mapped ≡ true) (below : j < n) (fits : n ≤ 15)
    (room : n ≤ length buf) where
  read_mbx_pf-word :
      (read_mbx_pf buf n vf hw).0.0 ≡ success
      → get_or (read_mbx_pf buf n vf hw).0.1 j 0 ≡ word j hw.dev
  unfolding read_mbx_pf receive_pf obtain_mbx_lock_pf
  read_mbx_pf-word ok =
      let hw' = (obtain_mbx_lock_pf vf hw).1 in
      let go = receive_pf buf n vf in
      ap (λ (r : (Status × List ℕ) × Hw D). get_or r.0.1 j 0)
        (locked (λ (a : Status × List ℕ). a.0) (obtain_mbx_lock_pf vf hw).0 (λ e. pure (e, buf)) go
          hw' (λ e. refl) ok)
      ∙ copy_in-word w buf 0 n j hw' (lock_attempts-mapped vf hw.mbx.timeout hw ∙ mapped)
          (omega arith) (omega arith) (omega arith) (omega arith)
      ∙ lock_attempts-word vf w hw.mbx.timeout j hw (omega arith)

-- The VF's two routines.
module _ {D : Type 0} ⦃bus : Bus D⦄ {word : ℕ → D → ℕ} (w : Window bus vxmbmem word) (msg : List ℕ)
    (n j : ℕ) (below : j < n) (fits : n ≤ 15) where
  send_vf-word : (hw : Hw D) → hw.mapped ≡ true → word j (send_vf msg n hw).1.dev ≡ get_or msg j 0
  unfolding send_vf
  send_vf-word hw mapped =
      let hw1 = (check_for_msg_vf hw).1 in
      let hw2 = (check_for_ack_vf hw1).1 in
      let hw3 = (copy_out vxmbmem msg 0 n hw2).1 in
      wr32_keeps w j vxmailbox vxmailbox_req _ (omega arith) (omega arith)
      ∙ copy_out-word w msg 0 n j hw2
          (check_for_ack_vf-mapped hw1 ∙ check_for_msg_vf-mapped hw ∙ mapped) (omega arith)
          (omega arith) (omega arith)

  write_mbx_vf-word :
      (hw : Hw D)
      → hw.mapped ≡ true
      → (write_mbx_vf msg n hw).0 ≡ success
      → word j (write_mbx_vf msg n hw).1.dev ≡ get_or msg j 0
  unfolding write_mbx_vf
  write_mbx_vf-word hw mapped ok =
      let hw' = (obtain_mbx_lock_vf hw).1 in
      ap (λ (r : Status × Hw D). word j r.1.dev)
        (locked (λ (a : Status). a) (obtain_mbx_lock_vf hw).0 pure (send_vf msg n) hw' (λ e. refl)
          ok)
      ∙ send_vf-word hw' (obtain_mbx_lock_vf-mapped hw ∙ mapped)

module _ {D : Type 0} ⦃bus : Bus D⦄ {word : ℕ → D → ℕ} (w : Window bus vxmbmem word) (buf : List ℕ)
    (n j : ℕ) (below : j < n) (fits : n ≤ 15) (room : n ≤ length buf) where
  read_mbx_vf-word :
      (hw : Hw D)
      → hw.mapped ≡ true
      → (read_mbx_vf buf n hw).0.0 ≡ success
      → get_or (read_mbx_vf buf n hw).0.1 j 0 ≡ word j hw.dev
  unfolding read_mbx_vf receive_vf
  read_mbx_vf-word hw mapped ok =
      let hw' = (obtain_mbx_lock_vf hw).1 in
      let go = receive_vf buf n in
      ap (λ (r : (Status × List ℕ) × Hw D). get_or r.0.1 j 0)
        (locked (λ (a : Status × List ℕ). a.0) (obtain_mbx_lock_vf hw).0 (λ e. pure (e, buf)) go hw'
          (λ e. refl) ok)
      ∙ copy_in-word w buf 0 n j hw' (obtain_mbx_lock_vf-mapped hw ∙ mapped) (omega arith)
          (omega arith) (omega arith) (omega arith)
      ∙ obtain_mbx_lock_vf-word w j hw (omega arith)

-- The two ends see the same memory through their own buses, and the reader starts from the device
-- as the writer left it.
module _ {D : Type 0} (pf_bus vf_bus : Bus D) {word : ℕ → D → ℕ} (vf : ℕ)
    (pf_window : Window pf_bus (pxmbmem vf) word) (vf_window : Window vf_bus vxmbmem word)
    (msg buf : List ℕ) (n j : ℕ) (hp hv : Hw D) (pf_mapped : hp.mapped ≡ true)
    (vf_mapped : hv.mapped ≡ true) (fits : n ≤ 15) (room : n ≤ length buf) (below : j < n) where
  -- Where both ends are mapped and see the same sixteen words: a message of at most 15 words that
  -- `txgbe_write_mbx_pf` reports as sent is what a successful
  -- `txgbe_read_mbx_vf` stores in a buffer with room for it, word by word, where nothing happens at
  -- the device between the two calls.
  pub pf_to_vf_delivery :
      (write_mbx_pf ⦃bus = pf_bus⦄ msg n vf hp).0 ≡ success
      → hv.dev ≡ (write_mbx_pf ⦃bus = pf_bus⦄ msg n vf hp).1.dev
      → (read_mbx_vf ⦃bus = vf_bus⦄ buf n hv).0.0 ≡ success
      → get_or (read_mbx_vf ⦃bus = vf_bus⦄ buf n hv).0.1 j 0 ≡ get_or msg j 0
  pf_to_vf_delivery sent same received =
      read_mbx_vf-word ⦃bus = vf_bus⦄ vf_window buf n j below fits room hv vf_mapped received
      ∙ ap (word j) same
      ∙ write_mbx_pf-word ⦃bus = pf_bus⦄ vf pf_window msg n j below fits hp pf_mapped sent

  -- Where both ends are mapped and see the same sixteen words: a message of at most 15 words that
  -- `txgbe_write_mbx_vf` reports as sent is what a successful `txgbe_read_mbx_pf` stores in a buffer
  -- with room for it, word by word, where nothing happens at the device between the two calls.
  pub vf_to_pf_delivery :
      (write_mbx_vf ⦃bus = vf_bus⦄ msg n hv).0 ≡ success
      → hp.dev ≡ (write_mbx_vf ⦃bus = vf_bus⦄ msg n hv).1.dev
      → (read_mbx_pf ⦃bus = pf_bus⦄ buf n vf hp).0.0 ≡ success
      → get_or (read_mbx_pf ⦃bus = pf_bus⦄ buf n vf hp).0.1 j 0 ≡ get_or msg j 0
  vf_to_pf_delivery sent same received =
      read_mbx_pf-word ⦃bus = pf_bus⦄ vf pf_window buf n j hp pf_mapped below fits room received
      ∙ ap (word j) same
      ∙ write_mbx_vf-word ⦃bus = vf_bus⦄ vf_window msg n j below fits hv vf_mapped sent
