-- ===== src/Hic/Kept.antt =====
-- A command to the firmware leaves the semaphores alone: the parts of src/txgbe_hw.c
-- `txgbe_host_interface_command` while the mailbox is held.
use txgbe.Base.{
  ℕ, zero, suc, ◌+◌, ◌*◌, ◌/◌, ◌%◌, ◌^◌, ◌<◌, ◌≡◌, ◌≢◌, ◌∙◌, ◌⊎◌, inl, inr, refl, sym, ap, bit_and,
  nonzero, ltb, ◌==◌, ◌&&◌, Bool, true, false, if◌then◌else◌, List, get_or, set, St, pure, arith,
}
use mathlib.Core.Path.{subst}
use txgbe.Hw.{
  Hw, Bus, Status, success, is_success, err_mng_access_failed, err_host_interface_command,
  err_invalid_argument,
}
use txgbe.Reg.{rd32, wr32, wr32m}
use txgbe.Reg.Frame.{Same, rd32-Same, wr32-Same, wr32m-Same}
use txgbe.Swfw.Access.{mis_st, sp_mpw, access_enabled, mng_present, check_mng_access}
use txgbe.Swfw.Sync.{mis_swsm, mng_sw_sm, mng_swfw_sync}
use txgbe.Swfw.Device.{Sem, rd32-keeps, rd32-leaves, wr32-keeps, wr32m-keeps, wr32m-leaves}
use txgbe.Swfw.Steps.{Guarded}
use txgbe.Hic.Command.{
  mng_mbox, mng_mbox_ctl, hdr_size, hdr_buf_len, reply_status, write_block, wait_fwrdy, read_block,
  read_data, read_reply, finish_command, issue_command,
}

module _ {D : Type 0} ⦃bus : Bus D⦄ (hw : Hw D)
    (open_to : ((hw.revision_id == sp_mpw) ≡ false) ⊎ (access_enabled hw ≡ true)) where
  -- The test of access reads MIS_ST alone, whatever it gives.
  check_mng_access_seen : (check_mng_access hw).1 ≡ (rd32 mis_st hw).1
  unfolding check_mng_access mng_present
  check_mng_access_seen = elim open_to [ inl e ↦ ground (arith, e) | inr e ↦ ground (arith, e) ]

module _ {D : Type 0} ⦃bus : Bus D⦄ {cell : ℕ → D → ℕ} (sem : Sem bus cell) {s m g : ℕ} where
  -- A step that changes the device alone, and none of the registers that guard a resource.
  stays :
      (hw hw' : Hw D)
      → Same hw hw'
      → cell mis_swsm hw'.dev ≡ cell mis_swsm hw.dev
      → cell mng_sw_sm hw'.dev ≡ cell mng_sw_sm hw.dev
      → cell mng_swfw_sync hw'.dev ≡ cell mng_swfw_sync hw.dev
      → Guarded cell s m g hw
      → Guarded cell s m g hw'
  stays hw hw' same a b c h = record {
    mapped = ap (λ (t : Hw D). t.mapped) same ∙ h.mapped;
    open_to = elim (h.open_to) [
      | inl e ↦ inl (ap (λ (t : Hw D). t.revision_id == sp_mpw) same ∙ e)
      | inr e ↦ inr (ap (λ (t : Hw D). access_enabled t) same ∙ e)
    ];
    swsm = a ∙ h.swsm;
    sw_sm = b ∙ h.sw_sm;
    swfw = c ∙ h.swfw;
  }

  rd32-Guarded :
      (a : ℕ) (hw : Hw D) → a ≢ mis_swsm → Guarded cell s m g hw → Guarded cell s m g (rd32 a hw).1
  rd32-Guarded a hw ne h =
      stays hw (rd32 a hw).1 (rd32-Same a hw) (rd32-leaves sem hw h.mapped a ne)
        (rd32-keeps sem hw h.mapped a mng_sw_sm refl (λ e. omega arith))
        (rd32-keeps sem hw h.mapped a mng_swfw_sync refl (λ e. omega arith)) h

  -- The mailbox lies past the semaphores.
  wr32-Guarded :
      (a v : ℕ) (hw : Hw D)
      → 0x1e008 < a
      → Guarded cell s m g hw
      → Guarded cell s m g (wr32 a v hw).1
  wr32-Guarded a v hw past h =
      stays hw (wr32 a v hw).1 (wr32-Same a hw v)
        (wr32-keeps sem hw h.mapped a v mis_swsm refl (λ e. omega arith))
        (wr32-keeps sem hw h.mapped a v mng_sw_sm refl (λ e. omega arith))
        (wr32-keeps sem hw h.mapped a v mng_swfw_sync refl (λ e. omega arith)) h

  wr32m-Guarded :
      (a mask field : ℕ) (hw : Hw D)
      → 0x1e008 < a
      → Guarded cell s m g hw
      → Guarded cell s m g (wr32m a mask field hw).1
  wr32m-Guarded a mask field hw past h =
      stays hw (wr32m a mask field hw).1 (wr32m-Same a hw mask field)
        (wr32m-leaves sem hw h.mapped a mask field (λ e. omega arith))
        (wr32m-keeps sem hw h.mapped a mask field mng_sw_sm refl (λ e. omega arith)
          (λ e. omega arith))
        (wr32m-keeps sem hw h.mapped a mask field mng_swfw_sync refl (λ e. omega arith)
          (λ e. omega arith))
        h

  check-Guarded : (hw : Hw D) → Guarded cell s m g hw → Guarded cell s m g (check_mng_access hw).1
  check-Guarded hw h =
      subst (λ (t : Hw D). Guarded cell s m g t) (sym (check_mng_access_seen hw h.open_to))
        (rd32-Guarded mis_st hw (λ e. omega arith) h)

  -- A choice between two ways of going on.
  pub choice-Guarded :
      {A : Type 0} (test : Bool) (yes_way no_way : St (Hw D) A) (hw : Hw D)
      → Guarded cell s m g (yes_way hw).1
      → Guarded cell s m g (no_way hw).1
      → Guarded cell s m g ((if test then yes_way else no_way) hw).1
  choice-Guarded true yes_way no_way hw p q = p
  choice-Guarded false yes_way no_way hw p q = q

  write_block-Guarded :
      (n i : ℕ) (buffer : List ℕ) (hw : Hw D)
      → Guarded cell s m g hw
      → Guarded cell s m g (write_block n i buffer hw).1
  unfolding write_block
  write_block-Guarded zero i buffer hw h = h
  write_block-Guarded (suc n) i buffer hw h =
      let a = mng_mbox + i * 4 in
      let word = get_or buffer i 0 in
      let (access, hw1) = check_mng_access hw in
      let h1 = check-Guarded hw h in
      let hw2 = (wr32 a word hw1).1 in
      let h2 = wr32-Guarded a word hw1 (omega arith) h1 in
      let hw3 = (rd32 a hw2).1 in
      let h3 = rd32-Guarded a hw2 (λ e. omega arith) h2 in
      let next : St (Hw D) Bool = λ t. write_block n (i + 1) buffer (rd32 a (wr32 a word t).1).1 in
      choice-Guarded access next (pure false) hw1 (write_block-Guarded n (i + 1) buffer hw3 h3) h1

  wait_fwrdy-Guarded :
      (n : ℕ) (hw : Hw D) → Guarded cell s m g hw → Guarded cell s m g (wait_fwrdy n hw).1
  unfolding wait_fwrdy
  wait_fwrdy-Guarded zero hw h = h
  wait_fwrdy-Guarded (suc n) hw h =
      let (access, hw1) = check_mng_access hw in
      let h1 = check-Guarded hw h in
      let ready = nonzero (bit_and (rd32 mng_mbox_ctl hw1).0 4) in
      let hw2 = (rd32 mng_mbox_ctl hw1).1 in
      let h2 = rd32-Guarded mng_mbox_ctl hw1 (λ e. omega arith) h1 in
      let look : St (Hw D) Bool = λ t.
        (let (hicr, u) = rd32 mng_mbox_ctl t in
          (if nonzero (bit_and hicr 4) then pure true else wait_fwrdy n) u) in
      choice-Guarded access look (wait_fwrdy n) hw1
        (choice-Guarded ready (pure true) (wait_fwrdy n) hw2 h2 (wait_fwrdy-Guarded n hw2 h2))
        (wait_fwrdy-Guarded n hw1 h1)

  read_block-Guarded :
      (n bi : ℕ) (buffer : List ℕ) (hw : Hw D)
      → Guarded cell s m g hw
      → Guarded cell s m g (read_block n bi buffer hw).1
  unfolding read_block
  read_block-Guarded zero bi buffer hw h = h
  read_block-Guarded (suc n) bi buffer hw h =
      let a = mng_mbox + bi * 4 in
      let (access, hw1) = check_mng_access hw in
      let h1 = check-Guarded hw h in
      let (word, hw2) = rd32 a hw1 in
      let h2 = rd32-Guarded a hw1 (λ e. omega arith) h1 in
      let look : St (Hw D) (Bool × List ℕ) =
        λ t. (let (w, u) = rd32 a t in read_block n (bi + 1) (set buffer bi w) u) in
      choice-Guarded access look (pure (false, buffer)) hw1
        (read_block-Guarded n (bi + 1) (set buffer bi word) hw2 h2) h1

  read_data-Guarded :
      (length : ℕ) (buffer : List ℕ) (hw : Hw D)
      → Guarded cell s m g hw
      → Guarded cell s m g (read_data length buffer hw).1
  unfolding read_data
  read_data-Guarded length buffer hw h =
      let n = (hdr_buf_len buffer + 3) / 2 ^ 2 in
      let stop : Status → St (Hw D) (Status × List ℕ) = λ status. pure (status, buffer) in
      let last : St (Hw D) (Status × List ℕ) = λ t.
        (let (r, u) = read_block n 1 buffer t in
          ((if r.0 then success else err_mng_access_failed, r.1), u)) in
      let small = ltb length (hdr_buf_len buffer + hdr_size) in
      choice-Guarded (hdr_buf_len buffer == 0) (stop success)
        (if small then stop err_host_interface_command else last) hw h
        (choice-Guarded small (stop err_host_interface_command) last hw h
          (read_block-Guarded n 1 buffer hw h))

  read_reply-Guarded :
      (length : ℕ) (buffer : List ℕ) (hw : Hw D)
      → Guarded cell s m g hw
      → Guarded cell s m g (read_reply length buffer hw).1
  unfolding read_reply
  read_reply-Guarded length buffer hw h =
      let ((ok, buffer1), hw1) = read_block 1 0 buffer hw in
      let h1 = read_block-Guarded 1 0 buffer hw h in
      choice-Guarded ok (read_data length buffer1) (pure (err_mng_access_failed, buffer1)) hw1
        (read_data-Guarded length buffer1 hw1 h1) h1

  finish_command-Guarded :
      (buffer : List ℕ) (length timeout : ℕ) (return_data : Bool) (hw : Hw D)
      → Guarded cell s m g hw
      → Guarded cell s m g (finish_command buffer length timeout return_data hw).1
  unfolding finish_command
  finish_command-Guarded buffer length timeout return_data hw h =
      let hw1 = (wait_fwrdy timeout hw).1 in
      let h1 = wait_fwrdy-Guarded timeout hw h in
      let hw2 = (rd32 mng_mbox hw1).1 in
      let h2 = rd32-Guarded mng_mbox hw1 (λ e. omega arith) h1 in
      let status = reply_status timeout (wait_fwrdy timeout hw).0 (rd32 mng_mbox hw1).0 buffer in
      choice-Guarded (is_success status && return_data) (read_reply length buffer)
        (pure (status, buffer)) hw2 (read_reply-Guarded length buffer hw2 h2) h2

  pub issue_command-Guarded :
      (buffer : List ℕ) (length timeout : ℕ) (return_data : Bool) (hw : Hw D)
      → Guarded cell s m g hw
      → Guarded cell s m g (issue_command buffer length timeout return_data hw).1
  unfolding issue_command
  issue_command-Guarded buffer length timeout return_data hw h =
      let (ok, hw1) = write_block (length / 4) 0 buffer hw in
      let h1 = write_block-Guarded (length / 4) 0 buffer hw h in
      let hw2 = ((if ok then check_mng_access else pure false) hw1).1 in
      let h2 = choice-Guarded ok check_mng_access (pure false) hw1 (check-Guarded hw1 h1) h1 in
      let hw3 = (wr32m mng_mbox_ctl 1 1 hw2).1 in
      let h3 = wr32m-Guarded mng_mbox_ctl 1 1 hw2 (omega arith) h2 in
      let go : St (Hw D) (Status × List ℕ) =
        λ t. finish_command buffer length timeout return_data (wr32m mng_mbox_ctl 1 1 t).1 in
      let lost : St (Hw D) (Status × List ℕ) = pure (err_mng_access_failed, buffer) in
      let test : St (Hw D) Bool = λ t.
        (let (done, u) = write_block (length / 4) 0 buffer t in
          (if done then check_mng_access else pure false) u) in
      let rest : St (Hw D) (Status × List ℕ) = λ t. (if (test t).0 then go else lost) (test t).1 in
      choice-Guarded (nonzero (length % 4)) (pure (err_invalid_argument, buffer)) rest hw h (
        choice-Guarded (test hw).0 go lost hw2
          (finish_command-Guarded buffer length timeout return_data hw3 h3) h2)
