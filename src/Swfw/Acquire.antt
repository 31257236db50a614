-- ===== src/Swfw/Acquire.antt =====
-- The attempts of src/txgbe_hw.c `txgbe_acquire_swfw_sync`, and `txgbe_release_swfw_sync`.
use txgbe.Base.{
  ℕ, zero, suc, ◌≡◌, ◌≢◌, ◌∙◌, refl, sym, ap, Bool, Bool-cases, inl, inr, bit_and, bit_or, true,
  false, none, some, arith,
}
use mathlib.Core.Path.{subst}
use txgbe.Hw.{Hw, Bus, Status, success}
use txgbe.Reg.{rd32, wr32, wr32m, failed_read_reg}
use txgbe.Reg.Merge.{merged}
use txgbe.Swfw.Access.{mis_st, check_mng_access}
use txgbe.Swfw.Sync.{
  mng_swfw_sync, both_masks, take_resource, acquire_loop, release_swfw_sync, get_eeprom_semaphore,
}
use txgbe.Swfw.Device.{Sem, rd32_value}
use txgbe.Swfw.Steps.{Held, rd32-Held, wr32_sync-Held, wr32m_sync-Held, check_mng_access_open}
use txgbe.Swfw.Turn.{get_eeprom_semaphore_free, release_eeprom_semaphore-Held}

module _ {D : Type 0} ⦃bus : Bus D⦄ (mask : ℕ) where
  -- What one attempt leaves: the semaphore is had, and the resource is looked at.
  abbrev pub attempt : Hw D → Hw D
  attempt hw = (take_resource mask 0 (get_eeprom_semaphore hw).1).1

  abbrev pub attempts : ℕ → Hw D → Hw D
  attempts zero hw = hw
  attempts (suc n) hw = attempts n (attempt hw)

module _ {D : Type 0} ⦃bus : Bus D⦄ {cell : ℕ → D → ℕ} (sem : Sem bus cell) (mask : ℕ) where
  -- One attempt with the semaphore in hand.
  module _ {g : ℕ} (old : ℕ) (hw : Hw D) (h : Held cell 1 1 g hw) where
    abbrev looked : Hw D
    looked = (rd32 mng_swfw_sync (rd32 mis_st hw).1).1

    looked-Held : Held cell 1 1 g looked
    looked-Held =
        rd32-Held sem (rd32 mis_st hw).1 (rd32-Held sem hw h mis_st refl (λ e. omega arith))
          mng_swfw_sync refl (λ e. omega arith)

    seen : (rd32 mng_swfw_sync (rd32 mis_st hw).1).0 ≡ g
    seen =
        let h1 = rd32-Held sem hw h mis_st refl (λ e. omega arith) in
        rd32_value sem (rd32 mis_st hw).1 (h1.mapped) mng_swfw_sync refl ∙ h1.swfw

    take_resource_free :
        bit_and g (both_masks mask) ≡ 0
        → (hw' : Hw D) × (take_resource mask old hw ≡ ((true, bit_or g mask), hw'))
          × Held cell 0 0 (bit_or g mask) hw'
    unfolding take_resource
    take_resource_free free =
        let hw1 = (wr32 mng_swfw_sync (bit_or g mask) looked).1 in
        let (hw', e, h') =
          release_eeprom_semaphore-Held sem hw1
            (wr32_sync-Held sem looked looked-Held (bit_or g mask)) in
        (hw', ground (arith, check_mng_access_open sem hw h, seen, free, e), h')

    take_resource_busy :
        bit_and g (both_masks mask) ≢ 0
        → (hw' : Hw D) × (take_resource mask old hw ≡ ((false, g), hw')) × Held cell 0 0 g hw'
    unfolding take_resource
    take_resource_busy busy =
        let (hw', e, h') = release_eeprom_semaphore-Held sem looked looked-Held in
        (hw', ground (arith, check_mng_access_open sem hw h, seen, busy, e), h')

  -- The first attempt takes a free resource.
  pub acquire_loop_free :
      {g : ℕ} (n old : ℕ) (hw : Hw D)
      → Held cell 0 0 g hw
      → bit_and g (both_masks mask) ≡ 0
      → (hw' : Hw D) × (acquire_loop mask (suc n) old hw ≡ ((some success, bit_or g mask), hw'))
        × Held cell 0 0 (bit_or g mask) hw'
  unfolding acquire_loop
  acquire_loop_free n old hw h free =
      let (hw1, e1, h1) = get_eeprom_semaphore_free sem hw h in
      let (hw2, e2, h2) = take_resource_free old hw1 h1 free in (hw2, ground (arith, e1, e2), h2)

  -- The value of `gssr` before an attempt does not matter for the hardware.
  take_resource_state :
      (old old' : ℕ) (hw : Hw D) → (take_resource mask old hw).1 ≡ (take_resource mask old' hw).1
  unfolding take_resource
  take_resource_state old old' hw = elim (Bool-cases (check_mng_access hw).0) [
    | inl e ↦ ground (arith, e)
    | inr e ↦ ground (arith, e)
  ]

  attempt_busy :
      {g : ℕ} (old : ℕ) (hw hw1 hw2 : Hw D)
      → get_eeprom_semaphore hw ≡ (success, hw1)
      → take_resource mask old hw1 ≡ ((false, g), hw2)
      → hw2 ≡ attempt mask hw
  attempt_busy {g} old hw hw1 hw2 e1 e2 =
      sym (ap (λ (t : (Bool × ℕ) × Hw D). t.1) e2)
      ∙ take_resource_state old 0 hw1
      ∙ sym (ap (λ (t : Status × Hw D). (take_resource mask 0 t.1).1) e1)

  -- Every attempt leaves a resource that is in use.
  acquire_loop_busy :
      {g : ℕ} (n : ℕ) (hw : Hw D)
      → Held cell 0 0 g hw
      → bit_and g (both_masks mask) ≢ 0
      → (hw' : Hw D) × (acquire_loop mask n g hw ≡ ((none, g), hw'))
        × Held cell 0 0 g hw'
        × (hw' ≡ attempts mask n hw)
  unfolding acquire_loop
  acquire_loop_busy zero hw h busy = (hw, refl, h, refl)
  acquire_loop_busy {g} (suc n) hw h busy =
      let (hw1, e1, h1) = get_eeprom_semaphore_free sem hw h in
      let (hw2, e2, h2) = take_resource_busy g hw1 h1 busy in
      let (hw3, e3, h3, t3) = acquire_loop_busy n hw2 h2 busy in
      (
        hw3,
        ground (arith, e1, e2, e3),
        h3,
        t3 ∙ ap (attempts mask n) (attempt_busy g hw hw1 hw2 e1 e2),
      )

  pub acquire_loop_tried :
      {g : ℕ} (n : ℕ) (hw : Hw D)
      → Held cell 0 0 g hw
      → bit_and g (both_masks mask) ≢ 0
      → (hw' : Hw D) × (acquire_loop mask (suc n) 0 hw ≡ ((none, g), hw'))
        × Held cell 0 0 g hw'
        × (hw' ≡ attempts mask (suc n) hw)
  unfolding acquire_loop
  acquire_loop_tried n hw h busy =
      let (hw1, e1, h1) = get_eeprom_semaphore_free sem hw h in
      let (hw2, e2, h2) = take_resource_busy 0 hw1 h1 busy in
      let (hw3, e3, h3, t3) = acquire_loop_busy n hw2 h2 busy in
      (
        hw3,
        ground (arith, e1, e2, e3),
        h3,
        t3 ∙ ap (attempts mask n) (attempt_busy 0 hw hw1 hw2 e1 e2),
      )

  pub release_swfw_sync_value :
      {g : ℕ} (hw : Hw D)
      → Held cell 0 0 g hw
      → g ≢ failed_read_reg
      → Held cell 0 0 (merged g mask 0) (release_swfw_sync mask hw).1
  unfolding release_swfw_sync
  release_swfw_sync_value {g} hw h live =
      let (hw1, e1, h1) = get_eeprom_semaphore_free sem hw h in
      let hw2 = (rd32 mis_st hw1).1 in
      let h2 = rd32-Held sem hw1 h1 mis_st refl (λ e. omega arith) in
      let hw3 = (wr32m mng_swfw_sync mask 0 hw2).1 in
      let (hw4, e4, h4) =
        release_eeprom_semaphore-Held sem hw3 (wr32m_sync-Held sem hw2 h2 mask 0 live) in
      let c = check_mng_access_open sem hw1 h1 in
      let all : (release_swfw_sync mask hw).1 ≡ hw4 = ground (arith, e1, c, e4) in
      subst (λ (t : Hw D). Held cell 0 0 (merged g mask 0) t) (sym all) h4
