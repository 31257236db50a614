-- ===== src/Hic/Fuel.antt =====
-- The fuel of the loop of src/txgbe_hw.c `txgbe_read_ee_hostif_buffer` is enough.
use txgbe.Base.{
  ℕ, zero, suc, ◌+◌, ◌-◌, ◌*◌, ◌/◌, ◌≤◌, min, ◌≡◌, refl, sym, ap, ◌==◌, if◌then◌else◌, St, pure,
  ◌>>=◌, false, [], arith,
}
use txgbe.Hw.{Hw, Bus, success, is_success}
use txgbe.Hic.Command.{mng_mbox, host_interface_command}
use txgbe.Hic.Eeprom.{
  fw_read_shadow_ram_cmd, fw_read_shadow_ram_len, fw_max_read_buffer_size, fw_nvm_data_offset,
  hi_command_timeout, shadow_ram_command, read_words,
}
use txgbe.Hic.Image.{BufferEnd, finished, after_words, read_chunks}

module _ {D : Type 0} ⦃bus : Bus D⦄ where
  -- One round, on the loop after it.
  abbrev round : ℕ → ℕ → St (Hw D) BufferEnd → St (Hw D) BufferEnd
  round offset words rest =
      let words_to_read = min words (fw_max_read_buffer_size / 2) in
      if words == 0 then pure (finished success []) else do
        (status, _) ←
            host_interface_command
              (shadow_ram_command fw_read_shadow_ram_cmd fw_read_shadow_ram_len (offset * 2)
                (words_to_read * 2) 0)
              16 hi_command_timeout false
        if is_success status
            then (do
              read ← read_words words_to_read (mng_mbox + fw_nvm_data_offset * 4)
              after_words read rest)
            else pure (finished status [])

  round_none :
      (offset words : ℕ) (rest : St (Hw D) BufferEnd)
      → words ≡ 0
      → round offset words rest ≡ pure (finished success [])
  round_none offset words rest e = ap (λ (w : ℕ). round offset w rest) e

  -- Two amounts of fuel that are not below the number of words give the same loop.
  pub read_chunks_enough :
      (fuel more offset words : ℕ)
      → words ≤ fuel
      → words ≤ more
      → read_chunks {D = D} fuel offset words ≡ read_chunks more offset words
  unfolding read_chunks
  read_chunks_enough zero zero offset words h k = refl
  read_chunks_enough zero (suc more) offset words h k =
      sym (round_none offset words _ (omega arith))
  read_chunks_enough (suc fuel) zero offset words h k = round_none offset words _ (omega arith)
  read_chunks_enough (suc fuel) (suc more) offset words h k =
      let next = min words (fw_max_read_buffer_size / 2) in
      ap (round offset words)
        (read_chunks_enough fuel more (offset + next) (words - next) (omega arith) (omega arith))
