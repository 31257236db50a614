-- ===== src/Examples/Firmware.antt =====
-- The theorems on the host interface and the EEPROM at concrete devices.
use txgbe.Base.{ℕ, ◌%◌, ◌^◌, ◌≡◌, ◌↔◌, refl, true, List, [], ◌∷◌, get_or, arith}
use txgbe.Reg.{rd32, wr32, wr32m}
use txgbe.Swfw.Access.{check_mng_access, mng_present}
use txgbe.Swfw.Sync.{
  acquire_swfw_sync, acquire_loop, acquire_end, take_resource, get_eeprom_semaphore, get_swesmbi,
  swesmbi_loop, swesmbi_try, smbi_loop, smbi_last_try, release_eeprom_semaphore,
}
use txgbe.Swfw.Steps.{Held, IsUp}
use txgbe.Hic.Command.{
  host_interface_command, issue_command, write_block, wait_fwrdy, read_block, read_data, read_reply,
  finish_command,
}
use txgbe.Hic.Release.{host_interface_command-Held}
use txgbe.Hic.Eeprom.{eeprom_sum}
use txgbe.Hic.Image.{image_checksum}
use txgbe.Hic.Checksum.{total, image_checksum_lem}
use txgbe.Examples.Device.{ram_cell}
use txgbe.Examples.Windows.{firmware_bus, firmware_bus-Sem}
use txgbe.Examples.Sync.{managed, managed-Held}

abbrev command : List ℕ
command = 0x31 ∷ 2 ∷ 3 ∷ []

command-IsUp :
    IsUp ram_cell
      (issue_command ⦃bus = firmware_bus⦄ command 12 3 true
        (acquire_swfw_sync ⦃bus = firmware_bus⦄ 4 managed).1).1
unfolding issue_command acquire_swfw_sync acquire_loop acquire_end take_resource
    get_eeprom_semaphore get_swesmbi swesmbi_loop swesmbi_try smbi_loop smbi_last_try
    release_eeprom_semaphore check_mng_access mng_present write_block wait_fwrdy read_block
    read_data read_reply finish_command rd32 wr32 wr32m
command-IsUp = refl

host_interface_command-Held_example :
    Held ram_cell 0 0 8 (host_interface_command ⦃bus = firmware_bus⦄ command 12 3 true managed).1
host_interface_command-Held_example =
    host_interface_command-Held ⦃bus = firmware_bus⦄ firmware_bus-Sem command 12 3 8 true managed
      managed-Held refl (omega arith) (λ e. omega arith) command-IsUp

abbrev image : List ℕ
image = 1 ∷ 0xbab7 ∷ 2 ∷ []

image_checksum_lem_example :
    (get_or image 1 0 ≡ image_checksum 1 image) ↔ (total image % 2 ^ 16 ≡ eeprom_sum)
image_checksum_lem_example = image_checksum_lem 1 image (omega arith) (omega arith)
