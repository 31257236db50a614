-- ===== src/Examples/Sync.antt =====
-- The theorems on the semaphores and on the recovery from bus errors at concrete devices.
use txgbe.Base.{
  ℕ, ltb, ◌+◌, ◌<◌, ◌≡◌, ◌≢◌, refl, bit_and, bit_or, true, false, if◌then◌else◌, none, some, List,
  ◌==◌, [], ◌∷◌, inr, ◌↔◌, pure, arith,
}
use txgbe.Hw.{Hw, success, err_swfw_sync}
use txgbe.Reg.Merge.{merged}
use txgbe.Swfw.Access.{mis_st}
use txgbe.Swfw.Sync.{mng_swfw_sync, both_masks, acquire_swfw_sync, release_swfw_sync}
use txgbe.Swfw.Steps.{Held}
use txgbe.Swfw.Acquire.{attempts}
use txgbe.Swfw.Outcome.{
  acquire_swfw_sync-free, release_swfw_sync-acquire_swfw_sync, acquire_swfw_sync-busy,
}
use txgbe.Pcierr.Recovery.{
  can_recover, need_reset, disconnect, PciDev, Port, report_error_detected, report_mmio_enabled,
  report_slot_reset, walk_bus, wait_ready,
}
use txgbe.Pcierr.Votes.{severity, walk_bus-worst}
use txgbe.Pcierr.Ready.{id_at, wait_ready_lem}
use txgbe.Examples.Device.{Memory, zeros, update, ram_cell, hw_over}
use txgbe.Examples.Windows.{sem_bus, sem_bus-Sem}

-- Management is up, and other software holds resource 8.
abbrev pub managed : Hw Memory
managed = hw_over (update mis_st 1 (update mng_swfw_sync 8 zeros))

pub managed-Held : Held ram_cell 0 0 8 managed
managed-Held = record {
  mapped = refl;
  present = refl;
  open_to = inr refl;
  swsm = refl;
  sw_sm = refl;
  swfw = refl;
}

acquire_swfw_sync-free_example :
    let after = acquire_swfw_sync ⦃bus = sem_bus⦄ 4 managed in
    (after.0 ≡ success) × Held ram_cell 0 0 (bit_or 8 4) after.1
acquire_swfw_sync-free_example =
    acquire_swfw_sync-free ⦃bus = sem_bus⦄ sem_bus-Sem 4 8 managed managed-Held refl

release_swfw_sync-acquire_swfw_sync_example :
    Held ram_cell 0 0 8
      (release_swfw_sync ⦃bus = sem_bus⦄ 4 (acquire_swfw_sync ⦃bus = sem_bus⦄ 4 managed).1).1
release_swfw_sync-acquire_swfw_sync_example =
    release_swfw_sync-acquire_swfw_sync ⦃bus = sem_bus⦄ sem_bus-Sem 4 8 managed managed-Held refl
      (omega arith) (omega arith) (λ e. omega arith)

acquire_swfw_sync-busy_example :
    let after = acquire_swfw_sync ⦃bus = sem_bus⦄ 8 managed in
    let held = bit_and 8 (both_masks 8) in
    (after.0 ≡ err_swfw_sync)
    × (after.1
        ≡ (release_swfw_sync ⦃bus = sem_bus⦄ held (attempts ⦃bus = sem_bus⦄ 8 200 managed)).1)
    × Held ram_cell 0 0 (merged 8 held 0) after.1
acquire_swfw_sync-busy_example =
    acquire_swfw_sync-busy ⦃bus = sem_bus⦄ sem_bus-Sem 8 8 managed managed-Held (λ e. omega arith)
      (λ e. omega arith)

-- Devices over a world that counts the callbacks: one whose driver votes to recover when it is asked
-- first and for a reset later, one with a vote that is fixed, and a bridge without a driver.
abbrev late_voter : PciDev ℕ
late_voter = record {
  bridge = false;
  error_detected = some (λ n. (if n == 0 then can_recover else need_reset, n + 1));
  mmio_enabled = some (λ n. (disconnect, n + 1));
  slot_reset = none;
  resume = none;
  set_io_normal = pure tt;
}

abbrev voter : PciDev ℕ
voter = record late_voter { error_detected = some (λ n. (disconnect, n + 1)) }

abbrev plain_bridge : PciDev ℕ
plain_bridge = record late_voter { bridge = true; error_detected = none; mmio_enabled = none }

abbrev devices : List (PciDev ℕ)
devices = voter ∷ plain_bridge ∷ late_voter ∷ []

walk_bus-worst_example :
    (severity (walk_bus report_error_detected devices can_recover 0).0 ≡ 3)
    × (severity (walk_bus report_mmio_enabled devices can_recover 0).0 ≡ 2)
    × (severity (walk_bus report_slot_reset devices can_recover 0).0 ≡ 1)
walk_bus-worst_example = walk_bus-worst devices can_recover 0 (omega arith)

-- A port that answers after three reads, over the number of the read.
abbrev slow_port : Port ℕ
slow_port = record {
  err_cap = 0;
  read_config_dword = λ reg n. (if ltb n 3 then 0xffffffff else 0, n + 1);
  read_config_word = λ reg n. (0, n);
  write_config_dword = λ reg v n. (tt, n);
  write_config_word = λ reg v n. (tt, n);
  msleep = λ ms n. (tt, n);
  err_root_command = 0x2c;
  err_root_status = 0x30;
  bridge_control = 0x3e;
  bridge_ctl_bus_reset = 0x40;
  command = 4;
  intr_on_mesg_mask = 7;
}

wait_ready_lem_example :
    ((wait_ready slow_port 0).0 ≢ none)
    × (((wait_ready slow_port 0).0 ≡ some true)
        ↔ ((i : ℕ) × (i < 17) × (id_at slow_port i 1 (0xffffffff, 1) ≢ 0xffffffff)))
wait_ready_lem_example = wait_ready_lem slow_port 0
