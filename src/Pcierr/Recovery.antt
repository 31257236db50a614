-- ===== src/Pcierr/Recovery.antt =====
-- src/txgbe_pcierr.c: the votes of the drivers on a bus and the recovery that they steer. The kernel's
-- access to the configuration space, its registers, its sleep and the callbacks of the drivers are
-- parameters, over a world `W` that they read and change.
use txgbe.Base.{
  ℕ, zero, suc, ◌*◌, bit_and, bit_or, bit_xor, ltb, ◌==◌, nonzero, Bool, true, false, not,
  if◌then◌else◌, Option, none, some, List, [], ◌∷◌, St, pure, ◌>>=◌, ◌>>◌,
}
use txgbe.Reg.{not32}

-- `enum pci_ers_result`, which the kernel declares, with its PCI_ERS_RESULT_NO_AER_DRIVER.
pub data ErsResult : Type 0 where
  ers_none can_recover need_reset disconnect recovered no_aer_driver : ErsResult

unfoldable pub merge_orig : ErsResult → ErsResult → ErsResult
merge_orig can_recover new = new
merge_orig recovered new = new
merge_orig disconnect need_reset = need_reset
merge_orig disconnect _ = disconnect
merge_orig orig _ = orig

unfoldable pub merge_result : ErsResult → ErsResult → ErsResult
merge_result orig no_aer_driver = no_aer_driver
merge_result orig ers_none = orig
merge_result orig new = merge_orig orig new

-- A device on the bus: the callbacks of its driver, where it has them.
pub record PciDev (W : Type 0) : Type 0 where
  pub bridge : Bool
  pub error_detected : Option (St W ErsResult)
  pub mmio_enabled : Option (St W ErsResult)
  pub slot_reset : Option (St W ErsResult)
  pub resume : Option (St W (Unit {0}))
  pub set_io_normal : St W (Unit {0})

-- The port above the bus, and the kernel's names for its registers.
pub record Port (W : Type 0) : Type 0 where
  pub err_cap : ℕ
  pub read_config_dword : ℕ → St W ℕ
  pub read_config_word : ℕ → St W ℕ
  pub write_config_dword : ℕ → ℕ → St W (Unit {0})
  pub write_config_word : ℕ → ℕ → St W (Unit {0})
  pub msleep : ℕ → St W (Unit {0})
  pub err_root_command : ℕ
  pub err_root_status : ℕ
  pub bridge_control : ℕ
  pub bridge_ctl_bus_reset : ℕ
  pub command : ℕ
  pub intr_on_mesg_mask : ℕ

module _ {W : Type 0} where
  unfoldable pub report_error_detected : PciDev W → ErsResult → St W ErsResult
  report_error_detected dev result = elim (dev.error_detected) [
    | none ↦ pure (merge_result result (if dev.bridge then ers_none else no_aer_driver))
    | some error_detected ↦ error_detected >>= λ (vote : ErsResult). pure (merge_result result vote)
  ]

  -- The callback of a driver that has it votes.
  unfoldable pub report_vote : Option (St W ErsResult) → ErsResult → St W ErsResult
  report_vote none result = pure result
  report_vote (some callback) result = do vote ← callback; pure (merge_result result vote)

  unfoldable pub report_mmio_enabled : PciDev W → ErsResult → St W ErsResult
  report_mmio_enabled dev result = report_vote (dev.mmio_enabled) result

  unfoldable pub report_slot_reset : PciDev W → ErsResult → St W ErsResult
  report_slot_reset dev result = report_vote (dev.slot_reset) result

  unfoldable pub report_resume : PciDev W → ErsResult → St W ErsResult
  report_resume dev result = do
    dev.set_io_normal
    elim (dev.resume) as (λ _. St W (Unit {0})) [ none ↦ pure tt | some resume ↦ resume ]
    pure result

  -- `pci_walk_bus` over the devices of the bus, whose callbacks never stop it.
  unfoldable pub walk_bus :
      (PciDev W → ErsResult → St W ErsResult) → List (PciDev W) → ErsResult → St W ErsResult
  walk_bus report [] result = pure result
  walk_bus report (dev ∷ devs) result = do result1 ← report dev result; walk_bus report devs result1

  module _ (port : Port W) where
    unfoldable pub disable_intr : St W (Unit {0})
    disable_intr =
        if nonzero port.err_cap
        then (do
          reg32 ← port.read_config_dword (port.err_root_command)
          port.write_config_dword (port.err_root_command)
              (bit_and reg32 (not32 port.intr_on_mesg_mask)))
        else pure tt

    unfoldable pub reset_bus : St W (Unit {0})
    reset_bus = do
      ctrl ← port.read_config_word (port.bridge_control)
      port.write_config_word (port.bridge_control) (bit_or ctrl port.bridge_ctl_bus_reset)
      port.msleep 2
      port.write_config_word (port.bridge_control) (
          bit_and (bit_or ctrl port.bridge_ctl_bus_reset)
            (bit_xor port.bridge_ctl_bus_reset 0xffff))
      port.msleep 1000

    -- The loop that waits for the device, with fuel: `some false` is the `return` that gives up.
    unfoldable pub wait_loop : ℕ → ℕ → ℕ → St W (Option Bool)
    wait_loop zero delay id = pure none
    wait_loop (suc fuel) delay id =
        if not (id == 0xffffffff)
        then pure (some true)
        else if ltb 60000 delay
        then pure (some false)
        else do
          port.msleep delay
          id1 ← port.read_config_dword (port.command)
          wait_loop fuel (delay * 2) id1

    unfoldable pub wait_ready : St W (Option Bool)
    wait_ready = do id ← port.read_config_dword (port.command); wait_loop 17 1 id

    unfoldable pub enable_intr : St W (Unit {0})
    enable_intr =
        if nonzero port.err_cap
        then (do
          status ← port.read_config_dword (port.err_root_status)
          port.write_config_dword (port.err_root_status) status
          reg32 ← port.read_config_dword (port.err_root_command)
          port.write_config_dword (port.err_root_command) (bit_or reg32 port.intr_on_mesg_mask))
        else pure tt

  -- The three broadcasts that end the recovery; the result is the status at the end.
  unfoldable pub broadcast_mmio : List (PciDev W) → ErsResult → St W ErsResult
  broadcast_mmio devs can_recover = walk_bus report_mmio_enabled devs recovered
  broadcast_mmio devs status = pure status

  unfoldable pub broadcast_reset : List (PciDev W) → ErsResult → St W ErsResult
  broadcast_reset devs need_reset = walk_bus report_slot_reset devs recovered
  broadcast_reset devs status = pure status

  unfoldable pub broadcast_resume : List (PciDev W) → ErsResult → St W ErsResult
  broadcast_resume devs recovered = walk_bus report_resume devs recovered
  broadcast_resume devs status = pure status

  -- `txgbe_pcie_do_recovery` on the port above the bus; the result is the last status, or `none`
  -- when it gives up.
  unfoldable pub do_recovery : Port W → List (PciDev W) → St W (Option ErsResult)
  do_recovery port devs = do
    status ← walk_bus report_error_detected devs can_recover
    disable_intr port
    reset_bus port
    ready ← wait_ready port
    if ready_now ready
        then (do
          enable_intr port
          status1 ← broadcast_mmio devs status
          status2 ← broadcast_reset devs status1
          status3 ← broadcast_resume devs status2
          pure (some status3))
        else pure none
    where
      ready_now : Option Bool → Bool
      ready_now (some ready) = ready
      ready_now none = false
