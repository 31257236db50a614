-- ===== src/Hic/Image.antt =====
-- The image of the EEPROM and its checksum, src/txgbe_hw.c. A read buffer is the list of the words that
-- were read. An allocation never fails.
use txgbe.Base.{
  ℕ, zero, suc, ◌+◌, ◌-◌, ◌*◌, ◌/◌, ◌%◌, ◌^◌, bit_and, nonzero, ◌==◌, min, false, if◌then◌else◌,
  Option, none, some, List, [], ◌∷◌, ◌++◌, St, pure, ◌>>=◌, ◌>>◌, get, modify, ◌⊎◌, inl, inr,
}
use txgbe.Hw.{
  Hw, Bus, Status, success, is_success, err_mng_access_failed, err_eeprom_checksum, EepromType,
  eeprom_uninitialized, eeprom_spi, eeprom_flash, eeprom_none,
}
use txgbe.Reg.{rd32}
use txgbe.Swfw.Sync.{acquire_swfw_sync, release_swfw_sync}
use txgbe.Hic.Command.{mng_mbox, host_interface_command}
use txgbe.Hic.Eeprom.{
  fw_read_shadow_ram_cmd, fw_read_shadow_ram_len, fw_max_read_buffer_size, fw_nvm_data_offset,
  hi_command_timeout, mng_swfw_sync_sw_flash, eeprom_last_word, eeprom_checksum, eeprom_sum,
  sw_region_ptr, spi_status, spi_status_flash_bypass, shadow_ram_command, read_words,
  read_ee_hostif, write_ee_hostif_data, write_ee_hostif, with_flash,
}

-- The loop over the words from word `i` on, which leaves out word `skip`: `checksum` is a u16.
unfoldable pub sum_words : ℕ → ℕ → ℕ → List ℕ → ℕ
sum_words i skip checksum [] = checksum
sum_words i skip checksum (w ∷ words) =
    sum_words (i + 1) skip (if i == skip then checksum else (checksum + w) % 2 ^ 16) words

-- `(u16)TXGBE_EEPROM_SUM - checksum`
unfoldable pub image_checksum : ℕ → List ℕ → ℕ
image_checksum skip words = (2 ^ 16 + eeprom_sum - sum_words 0 skip 0 words) % 2 ^ 16

-- How the loop of `txgbe_read_ee_hostif_buffer` ends: `returned` leaves the function at once, without
-- a release of the semaphore.
pub data BufferEnd : Type 0 where
  returned : Status → BufferEnd
  finished : Status → List ℕ → BufferEnd

abbrev pub with_words : List ℕ → BufferEnd → BufferEnd
with_words words (returned status) = returned status
with_words words (finished status more) = finished status (words ++ more)

module _ {D : Type 0} ⦃bus : Bus D⦄ where
  -- The words of a reply, and the rest of the loop.
  unfoldable pub after_words : Option (List ℕ) → St (Hw D) BufferEnd → St (Hw D) BufferEnd
  after_words none rest = pure (returned err_mng_access_failed)
  after_words (some words) rest = do ended ← rest; pure (with_words words ended)

  -- The loop with `words` left from `offset` on. Each round reads at least a word, so that `words` is
  -- fuel enough.
  unfoldable pub read_chunks : ℕ → ℕ → ℕ → St (Hw D) BufferEnd
  read_chunks zero offset words = pure (finished success [])
  read_chunks (suc fuel) offset words =
      let words_to_read = min words (fw_max_read_buffer_size / 2) in
      let rest = read_chunks fuel (offset + words_to_read) (words - words_to_read) in
      if words == 0 then pure (finished success []) else do
        (status, _) ←
            host_interface_command
              (shadow_ram_command fw_read_shadow_ram_cmd fw_read_shadow_ram_len (offset * 2)
                (words_to_read * 2) 0)
              16 hi_command_timeout false
        if is_success status
            then (do
              read ← read_words words_to_read (mng_mbox + fw_nvm_data_offset * 4)
              after_words read rest)
            else pure (finished status [])

  unfoldable pub end_buffer : BufferEnd → St (Hw D) (Status × List ℕ)
  end_buffer (returned status) = pure (status, [])
  end_buffer (finished status words) = do
    release_swfw_sync mng_swfw_sync_sw_flash
    pure (status, words)

  unfoldable pub read_ee_hostif_buffer : ℕ → ℕ → St (Hw D) (Status × List ℕ)
  read_ee_hostif_buffer offset words = do
    acquired ← acquire_swfw_sync mng_swfw_sync_sw_flash
    if is_success acquired
        then (do ended ← read_chunks words offset words; end_buffer ended)
        else pure (acquired, [])

  -- The loop of `txgbe_write_ee_hostif_buffer`.
  unfoldable pub write_words : ℕ → List ℕ → St (Hw D) Status
  write_words offset [] = pure success
  write_words offset (w ∷ words) = do
    status ← write_ee_hostif_data offset w
    let rest = write_words (offset + 1) words
    if is_success status then rest else pure status

  unfoldable pub write_ee_hostif_buffer : ℕ → List ℕ → St (Hw D) Status
  write_ee_hostif_buffer offset words = do
    (status, _) ←
        with_flash tt (write_words offset words >>= λ (status : Status). pure (status, tt))
    pure status

  unfoldable pub init_eeprom_kind : EepromType → St (Hw D) (Unit {0})
  init_eeprom_kind eeprom_uninitialized = do
    status ← rd32 spi_status
    let bypass = nonzero (bit_and status spi_status_flash_bypass)
    modify λ (hw : Hw D). record hw {
      eeprom = record (hw.eeprom) {
        semaphore_delay = 10;
        kind = if bypass then eeprom_none else eeprom_flash;
        word_size = if bypass then hw.eeprom.word_size else 2048;
      };
    }
  init_eeprom_kind eeprom_spi = pure tt
  init_eeprom_kind eeprom_flash = pure tt
  init_eeprom_kind eeprom_none = pure tt

  unfoldable pub init_eeprom_params : St (Hw D) Status
  init_eeprom_params = do
    hw ← get
    init_eeprom_kind (hw.eeprom.kind)
    (status, word) ← read_ee_hostif sw_region_ptr
    if is_success status
        then (do
          modify λ (hw1 : Hw D). record hw1 {
            eeprom = record (hw1.eeprom) { sw_region_offset = word / 2 };
          }
          pure success)
        else pure status

  -- The error code or the checksum.
  unfoldable pub calc_eeprom_checksum : St (Hw D) (Status ⊎ ℕ)
  calc_eeprom_checksum = do
    _ ← init_eeprom_params
    (status, words) ← read_ee_hostif_buffer 0 eeprom_last_word
    hw ← get
    pure (
        if is_success status
        then inr (image_checksum (hw.eeprom.sw_region_offset + eeprom_checksum) words)
        else inl status)

  unfoldable pub store_checksum : Status ⊎ ℕ → St (Hw D) Status
  store_checksum (inl status) = pure status
  store_checksum (inr checksum) = write_ee_hostif eeprom_checksum checksum

  unfoldable pub update_eeprom_checksum : St (Hw D) Status
  update_eeprom_checksum = do
    (status, _) ← read_ee_hostif 0
    if is_success status
        then calc_eeprom_checksum >>= (λ (calculated : Status ⊎ ℕ). store_checksum calculated)
        else pure status

  -- The result has the calculated checksum where there is one.
  unfoldable pub compare_checksum : Status ⊎ ℕ → St (Hw D) (Status × Option ℕ)
  compare_checksum (inl status) = pure (status, none)
  compare_checksum (inr checksum) = do
    hw ← get
    (status, read_checksum) ← read_ee_hostif (hw.eeprom.sw_region_offset + eeprom_checksum)
    pure (
        if is_success status
        then (if read_checksum == checksum then success else err_eeprom_checksum, some checksum)
        else (status, none))

  unfoldable pub validate_eeprom_checksum : St (Hw D) (Status × Option ℕ)
  validate_eeprom_checksum = do
    (status, _) ← read_ee_hostif 0
    if is_success status
        then calc_eeprom_checksum >>= (λ (calculated : Status ⊎ ℕ). compare_checksum calculated)
        else pure (status, none)
