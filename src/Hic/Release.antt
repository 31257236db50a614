-- ===== src/Hic/Release.antt =====
-- A command to the firmware gives the mailbox back: src/txgbe_hw.c `txgbe_host_interface_command`.
use txgbe.Base.{
  ℕ, ◌^◌, ◌<◌, ◌≡◌, ◌≢◌, sym, ap, bit_and, bit_or, ltb, ◌==◌, ◌||◌, Bool, true, false,
  if◌then◌else◌, List, St, pure, arith,
}
use mathlib.Core.Path.{subst}
use txgbe.Hw.{Hw, Bus, Status, is_success, err_host_interface_command, err_swfw_sync}
use txgbe.Reg.{failed_read_reg}
use txgbe.Reg.Merge.{merged}
use txgbe.Swfw.Sync.{both_masks, acquire_swfw_sync, release_swfw_sync}
use txgbe.Swfw.Device.{Sem}
use txgbe.Swfw.Steps.{Held, IsUp, Guarded-Held, Held-Guarded}
use txgbe.Swfw.Acquire.{release_swfw_sync_value}
use txgbe.Swfw.Outcome.{acquire_swfw_sync-free, merged-bit_or, bit_and-both_masks}
use txgbe.Hic.Command.{
  mng_swfw_sync_sw_mb, hi_max_block_byte_length, issue_command, host_interface_command,
}
use txgbe.Hic.Kept.{issue_command-Guarded}

-- A choice between two ways of going on.
choice-Held :
    {D A : Type 0} {cell : ℕ → D → ℕ} {s m g : ℕ} (test : Bool) (yes_way no_way : St (Hw D) A)
    (hw : Hw D)
    → Held cell s m g (yes_way hw).1
    → Held cell s m g (no_way hw).1
    → Held cell s m g ((if test then yes_way else no_way) hw).1
choice-Held true yes_way no_way hw p q = p
choice-Held false yes_way no_way hw p q = q

module _ {D : Type 0} ⦃bus : Bus D⦄ {cell : ℕ → D → ℕ} (sem : Sem bus cell) where
  -- On a device that one driver uses, whose management is up and open, whose semaphores are clear
  -- and whose mailbox is free, `txgbe_host_interface_command` gives the mailbox back, whatever its
  -- command and its length are, whatever the firmware answers, and whether management is up or
  -- down at each step of the command, if it is up when the command ends: the semaphores and the
  -- register of the resources are what they were, if that register has 32 bits and does not
  -- read as all ones while the mailbox is held.
  pub host_interface_command-Held :
      (buffer : List ℕ) (length timeout g : ℕ) (return_data : Bool) (hw : Hw D)
      → Held cell 0 0 g hw
      → bit_and g (both_masks mng_swfw_sync_sw_mb) ≡ 0
      → g < 2 ^ 32
      → bit_or g mng_swfw_sync_sw_mb ≢ failed_read_reg
      → IsUp cell
          (issue_command buffer length timeout return_data
            (acquire_swfw_sync mng_swfw_sync_sw_mb hw).1).1
      → Held cell 0 0 g (host_interface_command buffer length timeout return_data hw).1
  unfolding host_interface_command
  host_interface_command-Held buffer length timeout g return_data hw h free small live up =
      let mask = mng_swfw_sync_sw_mb in
      let (acquired, hw1) = acquire_swfw_sync mask hw in
      let (ok, h1) = acquire_swfw_sync-free sem mask g hw h free in
      let hw2 = (issue_command buffer length timeout return_data hw1).1 in
      let h2 : Held cell 0 0 (bit_or g mask) hw2 =
        Held-Guarded hw2
          (issue_command-Guarded sem buffer length timeout return_data hw1 (Guarded-Held hw1 h1))
          up in
      let back : merged (bit_or g mask) mask 0 ≡ g =
        merged-bit_or g mask small (omega arith) (bit_and-both_masks g mask free) in
      let h3 : Held cell 0 0 g (release_swfw_sync mask hw2).1 =
        subst (λ (x : ℕ). Held cell 0 0 x (release_swfw_sync mask hw2).1) back
          (release_swfw_sync_value sem mask hw2 h2 live) in
      let fail : Status → St (Hw D) (Status × List ℕ) = λ status. pure (status, buffer) in
      let run : St (Hw D) (Status × List ℕ) = λ t.
        (let (r, u) = issue_command buffer length timeout return_data t in
          (r, (release_swfw_sync mask u).1)) in
      let all : St (Hw D) (Status × List ℕ) = λ t.
        (let (a, u) = acquire_swfw_sync mask t in
          (if is_success a then run else fail err_swfw_sync) u) in
      let done : Held cell 0 0 g (all hw).1 =
        subst (λ (b : Bool). Held cell 0 0 g ((if b then run else fail err_swfw_sync) hw1).1)
          (sym (ap is_success ok)) h3 in
      choice-Held ((length == 0) || ltb hi_max_block_byte_length length)
        (fail err_host_interface_command) all hw h done
