-- ===== src/Hic/Command.antt =====
-- src/txgbe_hw.c `txgbe_host_interface_command` and `txgbe_calculate_checksum`, on a host that is
-- little endian.
use txgbe.Base.{
  ℕ, zero, suc, ◌+◌, ◌-◌, ◌/◌, ◌%◌, ◌^◌, bit_and, nonzero, ltb, ◌==◌, ◌&&◌, ◌||◌, not, Bool, true,
  false, if◌then◌else◌, List, [], ◌∷◌, get_or, set, take, St, pure, ◌>>=◌, ◌>>◌,
}
use txgbe.Hw.{
  Hw, Bus, Status, success, is_success, err_host_interface_command, err_swfw_sync,
  err_invalid_argument, err_mng_access_failed,
}
use txgbe.Reg.{rd32, rd32a, wr32a, wr32m, not32}
use txgbe.Swfw.Access.{check_mng_access}
use txgbe.Swfw.Sync.{acquire_swfw_sync, release_swfw_sync}

abbrev pub mng_mbox : ℕ
mng_mbox = 0x1e100

abbrev pub mng_mbox_ctl : ℕ
mng_mbox_ctl = 0x1e044

abbrev pub mng_mbox_ctl_swrdy : ℕ
mng_mbox_ctl_swrdy = 1

abbrev pub mng_mbox_ctl_fwrdy : ℕ
mng_mbox_ctl_fwrdy = 4

abbrev pub hi_max_block_byte_length : ℕ
hi_max_block_byte_length = 256

abbrev pub mng_swfw_sync_sw_mb : ℕ
mng_swfw_sync_sw_mb = 4

-- `sizeof(struct txgbe_hic_hdr)`, and its field `buf_len` in the first dword of a buffer.
abbrev pub hdr_size : ℕ
hdr_size = 4

abbrev pub hdr_buf_len : List ℕ → ℕ
hdr_buf_len buffer = get_or buffer 0 0 / 2 ^ 8 % 2 ^ 8

-- The loop over the bytes: `sum` is a u8.
unfoldable pub byte_sum : ℕ → List ℕ → ℕ
byte_sum sum [] = sum
byte_sum sum (x ∷ buffer) = byte_sum ((sum + x) % 2 ^ 8) buffer

unfoldable pub calculate_checksum : List ℕ → ℕ → ℕ
calculate_checksum buffer length = (2 ^ 8 - byte_sum 0 (take length buffer)) % 2 ^ 8

-- The checks after the wait: an unknown command, and a command that did not complete.
abbrev pub reply_status : ℕ → Bool → ℕ → List ℕ → Status
reply_status timeout ready buf0 buffer =
    if bit_and buf0 0xff0000 / 2 ^ 16 == 0x80
    then err_mng_access_failed
    else if nonzero timeout && not ready && not (get_or buffer 0 0 % 2 ^ 8 == not32 buf0 / 2 ^ 24)
    then err_host_interface_command
    else success

module _ {D : Type 0} ⦃bus : Bus D⦄ where
  -- The loop that writes the command, with `n` dwords left from `i` on; false without access. The
  -- copy `buf` is used past its first dword for a message only.
  unfoldable pub write_block : ℕ → ℕ → List ℕ → St (Hw D) Bool
  write_block zero i buffer = pure true
  write_block (suc n) i buffer = do
    access ← check_mng_access
    let rest = write_block n (i + 1) buffer
    if access
        then (do wr32a mng_mbox i (get_or buffer i 0); _ ← rd32a mng_mbox i; rest)
        else pure false

  -- The wait for the firmware, with `n` rounds left; whether it was seen ready.
  unfoldable pub wait_fwrdy : ℕ → St (Hw D) Bool
  wait_fwrdy zero = pure false
  wait_fwrdy (suc n) = do
    access ← check_mng_access
    let rest = wait_fwrdy n
    if access
        then (do
          hicr ← rd32 mng_mbox_ctl
          if nonzero (bit_and hicr mng_mbox_ctl_fwrdy) then pure true else rest)
        else rest

  -- The loops that read the reply, with `n` dwords left from `bi` on.
  unfoldable pub read_block : ℕ → ℕ → List ℕ → St (Hw D) (Bool × List ℕ)
  read_block zero bi buffer = pure (true, buffer)
  read_block (suc n) bi buffer = do
    access ← check_mng_access
    if access
        then (do word ← rd32a mng_mbox bi; read_block n (bi + 1) (set buffer bi word))
        else pure (false, buffer)

  -- The rest of the reply, after the header.
  unfoldable pub read_data : ℕ → List ℕ → St (Hw D) (Status × List ℕ)
  read_data length buffer =
      let buf_len = hdr_buf_len buffer in
      if buf_len == 0
      then pure (success, buffer)
      else if ltb length (buf_len + hdr_size)
      then pure (err_host_interface_command, buffer)
      else do
        (ok, buffer1) ← read_block ((buf_len + 3) / 2 ^ 2) 1 buffer
        pure (if ok then success else err_mng_access_failed, buffer1)

  unfoldable pub read_reply : ℕ → List ℕ → St (Hw D) (Status × List ℕ)
  read_reply length buffer = do
    (ok, buffer1) ← read_block (hdr_size / 2 ^ 2) 0 buffer
    if ok then read_data length buffer1 else pure (err_mng_access_failed, buffer1)

  unfoldable pub finish_command : List ℕ → ℕ → ℕ → Bool → St (Hw D) (Status × List ℕ)
  finish_command buffer length timeout return_data = do
    ready ← wait_fwrdy timeout
    buf0 ← rd32 mng_mbox
    let status = reply_status timeout ready buf0 buffer
    if is_success status && return_data then read_reply length buffer else pure (status, buffer)

  -- The command while the resource is held.
  unfoldable pub issue_command : List ℕ → ℕ → ℕ → Bool → St (Hw D) (Status × List ℕ)
  issue_command buffer length timeout return_data =
      if nonzero (length % 4) then pure (err_invalid_argument, buffer) else do
        ok ← write_block (length / 2 ^ 2) 0 buffer
        access ← if ok then check_mng_access else pure false
        if access
            then (do
              wr32m mng_mbox_ctl mng_mbox_ctl_swrdy mng_mbox_ctl_swrdy
              finish_command buffer length timeout return_data)
            else pure (err_mng_access_failed, buffer)

  -- The result has the buffer, which the reply overwrites.
  unfoldable pub host_interface_command : List ℕ → ℕ → ℕ → Bool → St (Hw D) (Status × List ℕ)
  host_interface_command buffer length timeout return_data =
      if (length == 0) || ltb hi_max_block_byte_length length
      then pure (err_host_interface_command, buffer)
      else do
        acquired ← acquire_swfw_sync mng_swfw_sync_sw_mb
        if is_success acquired
            then (do
              result ← issue_command buffer length timeout return_data
              release_swfw_sync mng_swfw_sync_sw_mb
              pure result)
            else pure (err_swfw_sync, buffer)
