-- ===== src/Hic/Eeprom.antt =====
-- The EEPROM through the host interface, src/txgbe_hw.c: reading, writing and the checksum. The bytes
-- of a command that the source leaves unset are 0 here. An allocation never fails.
use txgbe.Base.{
  ℕ, zero, suc, ◌+◌, ◌*◌, ◌/◌, ◌%◌, ◌^◌, ◌==◌, false, if◌then◌else◌, Option, none, some, List, [],
  ◌∷◌, St, pure, ◌>>=◌, ◌>>◌,
}
use txgbe.Hw.{
  Hw, Bus, Status, success, is_success, err_mng_access_failed, err_swfw_sync, err_eeprom_checksum,
}
use txgbe.Reg.{rd32, rd32a}
use txgbe.Swfw.Access.{check_mng_access}
use txgbe.Swfw.Sync.{acquire_swfw_sync, release_swfw_sync}
use txgbe.Hic.Command.{mng_mbox, host_interface_command}

abbrev pub fw_read_shadow_ram_cmd : ℕ
fw_read_shadow_ram_cmd = 0x31

abbrev pub fw_read_shadow_ram_len : ℕ
fw_read_shadow_ram_len = 0x6

abbrev pub fw_write_shadow_ram_cmd : ℕ
fw_write_shadow_ram_cmd = 0x33

abbrev pub fw_write_shadow_ram_len : ℕ
fw_write_shadow_ram_len = 0xa

abbrev pub fw_default_checksum : ℕ
fw_default_checksum = 0xff

abbrev pub fw_nvm_data_offset : ℕ
fw_nvm_data_offset = 3

abbrev pub fw_max_read_buffer_size : ℕ
fw_max_read_buffer_size = 244

abbrev pub fw_dw_open_notify : ℕ
fw_dw_open_notify = 0xe9

abbrev pub fw_dw_close_notify : ℕ
fw_dw_close_notify = 0xea

abbrev pub hi_command_timeout : ℕ
hi_command_timeout = 5000

abbrev pub checksum_cap_st_pass : ℕ
checksum_cap_st_pass = 0x80658383

abbrev pub mng_swfw_sync_sw_flash : ℕ
mng_swfw_sync_sw_flash = 8

abbrev pub eeprom_last_word : ℕ
eeprom_last_word = 0x800

abbrev pub eeprom_checksum : ℕ
eeprom_checksum = 0x2f

abbrev pub eeprom_sum : ℕ
eeprom_sum = 0xbaba

abbrev pub sw_region_ptr : ℕ
sw_region_ptr = 0x1c

abbrev pub spi_status : ℕ
spi_status = 0x1010c

abbrev pub spi_status_flash_bypass : ℕ
spi_status_flash_bypass = 2 ^ 31

-- `TXGBE_CPU_TO_BE32` and `TXGBE_CPU_TO_BE16`.
abbrev pub be32 : ℕ → ℕ
be32 x =
    x % 2 ^ 8 * 2 ^ 24
    + x / 2 ^ 8 % 2 ^ 8 * 2 ^ 16
    + x / 2 ^ 16 % 2 ^ 8 * 2 ^ 8
    + x / 2 ^ 24 % 2 ^ 8

abbrev pub be16 : ℕ → ℕ
be16 x = x % 2 ^ 8 * 2 ^ 8 + x / 2 ^ 8 % 2 ^ 8

-- `struct txgbe_hic_read_shadow_ram` and `struct txgbe_hic_write_shadow_ram`, as four dwords.
abbrev pub shadow_ram_command : ℕ → ℕ → ℕ → ℕ → ℕ → List ℕ
shadow_ram_command cmd buf_lenl address length word =
    (cmd + buf_lenl * 2 ^ 16 + fw_default_checksum * 2 ^ 24)
    ∷ be32 address
    ∷ be16 length
    ∷ word
    ∷ []

module _ {D : Type 0} ⦃bus : Bus D⦄ where
  unfoldable pub read_ee_hostif_data : ℕ → St (Hw D) (Status × ℕ)
  read_ee_hostif_data offset = do
    (status, _) ←
        host_interface_command
          (shadow_ram_command fw_read_shadow_ram_cmd fw_read_shadow_ram_len (offset * 2) 2 0) 16
          hi_command_timeout false
    if is_success status
        then (do
          access ← check_mng_access
          if access
              then (do word ← rd32a mng_mbox fw_nvm_data_offset; pure (success, word % 2 ^ 16))
              else pure (err_mng_access_failed, 0))
        else pure (status, 0)

  -- A routine under the semaphore of the flash.
  unfoldable pub with_flash : {A : Type 0} → A → St (Hw D) (Status × A) → St (Hw D) (Status × A)
  with_flash none_read body = do
    acquired ← acquire_swfw_sync mng_swfw_sync_sw_flash
    if is_success acquired
        then (do result ← body; release_swfw_sync mng_swfw_sync_sw_flash; pure result)
        else pure (err_swfw_sync, none_read)

  unfoldable pub read_ee_hostif : ℕ → St (Hw D) (Status × ℕ)
  read_ee_hostif offset = with_flash 0 (read_ee_hostif_data offset)

  -- The words of one reply, two in a dword, with `n` of the words left; none when access is lost.
  unfoldable pub read_words : ℕ → ℕ → St (Hw D) (Option (List ℕ))
  read_words zero reg = pure (some [])
  read_words (suc zero) reg = do
    access ← check_mng_access
    if access then (rd32 reg >>= λ (value : ℕ). pure (some (value % 2 ^ 16 ∷ []))) else pure none
  read_words (suc (suc n)) reg = do
    access ← check_mng_access
    if access
        then (do value ← rd32 reg; rest ← read_words n (reg + 4); pure (add_words value rest))
        else pure none
    where
      add_words : ℕ → Option (List ℕ) → Option (List ℕ)
      add_words value none = none
      add_words value (some words) = some (value % 2 ^ 16 ∷ value / 2 ^ 16 % 2 ^ 16 ∷ words)

  unfoldable pub write_ee_hostif_data : ℕ → ℕ → St (Hw D) Status
  write_ee_hostif_data offset word = do
    (status, _) ←
        host_interface_command
          (shadow_ram_command fw_write_shadow_ram_cmd fw_write_shadow_ram_len (offset * 2) 2 word)
          16 hi_command_timeout false
    pure status

  unfoldable pub write_ee_hostif : ℕ → ℕ → St (Hw D) Status
  write_ee_hostif offset word = do
    (status, _) ←
        with_flash tt (write_ee_hostif_data offset word >>= λ (status : Status). pure (status, tt))
    pure status

  -- `txgbe_close_notify` and `txgbe_open_notify`, which differ in the command.
  unfoldable pub notify : ℕ → St (Hw D) Status
  notify cmd = do
    (status, _) ← host_interface_command (shadow_ram_command cmd 0 0 0 0) 16 500 false
    if is_success status
        then (do
          access ← check_mng_access
          if access
              then (do
                tmp ← rd32a mng_mbox 1
                pure (if tmp == checksum_cap_st_pass then success else err_eeprom_checksum))
              else pure err_mng_access_failed)
        else pure status

  unfoldable pub close_notify : St (Hw D) Status
  close_notify = notify fw_dw_close_notify

  unfoldable pub open_notify : St (Hw D) Status
  open_notify = notify fw_dw_open_notify
