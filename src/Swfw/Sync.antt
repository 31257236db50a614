-- ===== src/Swfw/Sync.antt =====
-- The semaphore between the drivers, and the resources that it guards: src/txgbe_hw.c
-- `txgbe_get_eeprom_semaphore`, `txgbe_acquire_swfw_sync` and their releases.
use txgbe.Base.{
  ℕ, zero, suc, bit_and, bit_or, nonzero, Bool, true, false, not, if◌then◌else◌, Option, none, some,
  St, pure, ◌>>=◌, ◌>>◌,
}
use txgbe.Hw.{Hw, Bus, Status, success, is_success, err_eeprom, err_swfw_sync}
use txgbe.Reg.{rd32, wr32, wr32m, shl32}
use txgbe.Fdir.Filter.{write_flush}
use txgbe.Swfw.Access.{check_mng_access}

abbrev pub mis_swsm : ℕ
mis_swsm = 0x1002c

abbrev pub mis_swsm_smbi : ℕ
mis_swsm_smbi = 1

abbrev pub mng_sw_sm : ℕ
mng_sw_sm = 0x1e004

abbrev pub mng_sw_sm_sm : ℕ
mng_sw_sm_sm = 1

abbrev pub mng_swfw_sync : ℕ
mng_swfw_sync = 0x1e008

-- The bits of a resource: the software's and the firmware's.
abbrev pub both_masks : ℕ → ℕ
both_masks mask = bit_or (shl32 mask 16) mask

module _ {D : Type 0} ⦃bus : Bus D⦄ where
  unfoldable pub release_eeprom_semaphore : St (Hw D) (Unit {0})
  release_eeprom_semaphore = do
    access ← check_mng_access
    if access
        then (do wr32m mng_sw_sm mng_sw_sm_sm 0; wr32m mis_swsm mis_swsm_smbi 0; write_flush)
        else pure tt

  -- The loop for the SMBI bit, with `n` tries left.
  unfoldable pub smbi_loop : ℕ → St (Hw D) Bool
  smbi_loop zero = pure false
  smbi_loop (suc n) = do
    swsm ← rd32 mis_swsm
    let rest = smbi_loop n
    if nonzero (bit_and swsm mis_swsm_smbi) then rest else pure true

  -- The last try after the semaphore was cleared by force.
  unfoldable pub smbi_last_try : St (Hw D) Bool
  smbi_last_try = do
    release_eeprom_semaphore
    swsm ← rd32 mis_swsm
    pure (not (nonzero (bit_and swsm mis_swsm_smbi)))

  -- One try for the SWESMBI bit.
  unfoldable pub swesmbi_try : St (Hw D) Bool
  swesmbi_try = do
    access ← check_mng_access
    if access
        then (do
          wr32m mng_sw_sm mng_sw_sm_sm mng_sw_sm_sm
          swsm ← rd32 mng_sw_sm
          pure (nonzero (bit_and swsm mng_sw_sm_sm)))
        else pure false

  unfoldable pub swesmbi_loop : ℕ → St (Hw D) Bool
  swesmbi_loop zero = pure false
  swesmbi_loop (suc n) = do
    taken ← swesmbi_try
    let rest = swesmbi_loop n
    if taken then pure true else rest

  -- The second half of `txgbe_get_eeprom_semaphore`, with the status of the first.
  unfoldable pub get_swesmbi : Bool → St (Hw D) Status
  get_swesmbi false = pure err_eeprom
  get_swesmbi true = do
    taken ← swesmbi_loop 4000
    if taken then pure success else (release_eeprom_semaphore >> pure err_eeprom)

  unfoldable pub get_eeprom_semaphore : St (Hw D) Status
  get_eeprom_semaphore = do
    granted ← smbi_loop 4000
    owned ← if granted then pure true else smbi_last_try
    get_swesmbi owned

  unfoldable pub release_swfw_sync : ℕ → St (Hw D) (Unit {0})
  release_swfw_sync mask = do
    _ ← get_eeprom_semaphore
    access ← check_mng_access
    if access then wr32m mng_swfw_sync mask 0 else pure tt
    release_eeprom_semaphore

  -- The body of the loop of `txgbe_acquire_swfw_sync` once the semaphore is had: whether the resource
  -- was taken, and `gssr`.
  unfoldable pub take_resource : ℕ → ℕ → St (Hw D) (Bool × ℕ)
  take_resource mask old_gssr = do
    access ← check_mng_access
    if access
        then (do
          gssr ← rd32 mng_swfw_sync
          if nonzero (bit_and gssr (both_masks mask))
              then release_eeprom_semaphore >> pure (false, gssr)
              else (do
                wr32 mng_swfw_sync (bit_or gssr mask)
                release_eeprom_semaphore
                pure (true, bit_or gssr mask)))
        else pure (false, old_gssr)

  -- The loop with `n` attempts left: the status of a `return` in it, and `gssr`.
  unfoldable pub acquire_loop : ℕ → ℕ → ℕ → St (Hw D) (Option Status × ℕ)
  acquire_loop mask zero gssr = pure (none, gssr)
  acquire_loop mask (suc n) gssr = do
    status ← get_eeprom_semaphore
    if is_success status
        then (do
          (taken, gssr1) ← take_resource mask gssr
          let rest = acquire_loop mask n gssr1
          if taken then pure (some success, gssr1) else rest)
        else pure (some err_swfw_sync, gssr)

  -- After the loop: the bits that hold the resource are cleared.
  unfoldable pub acquire_end : ℕ → Option Status × ℕ → St (Hw D) Status
  acquire_end mask (some status, gssr) = pure status
  acquire_end mask (none, gssr) = do
    if nonzero (bit_and gssr (both_masks mask))
        then release_swfw_sync (bit_and gssr (both_masks mask))
        else pure tt
    pure err_swfw_sync

  unfoldable pub acquire_swfw_sync : ℕ → St (Hw D) Status
  acquire_swfw_sync mask = do ended ← acquire_loop mask 200 0; acquire_end mask ended
