-- ===== src/Swfw/Turn.antt =====
-- A driver that is alone gets the semaphore at once, and a release gives it back.
use txgbe.Base.{
  ℕ, suc, ◌≡◌, ◌∙◌, refl, ap, bit_and, nonzero, Bool, true, false, if◌then◌else◌, pure, ◌>>◌, arith,
}
use txgbe.Hw.{Hw, Bus, Status, success, err_eeprom}
use txgbe.Reg.{rd32, wr32m}
use txgbe.Fdir.Filter.{mis_pwr}
use txgbe.Swfw.Access.{mis_st}
use txgbe.Swfw.Sync.{
  mis_swsm, mng_sw_sm, release_eeprom_semaphore, smbi_loop, smbi_last_try, swesmbi_try,
  swesmbi_loop, get_swesmbi, get_eeprom_semaphore,
}
use txgbe.Swfw.Device.{Sem, rd32_value}
use txgbe.Swfw.Steps.{
  Held, rd32-Held, rd32_swsm-Held, wr32m_sm-Held, wr32m_swsm-Held, check_mng_access_open,
}

module _ {D : Type 0} ⦃bus : Bus D⦄ {cell : ℕ → D → ℕ} (sem : Sem bus cell) where
  module _ {m g : ℕ} (hw : Hw D) (h : Held cell 0 m g hw) where
    smbi_loop_free : (n : ℕ) → smbi_loop (suc n) hw ≡ (true, (rd32 mis_swsm hw).1)
    unfolding smbi_loop
    smbi_loop_free n =
        let free : nonzero (bit_and (rd32 mis_swsm hw).0 1) ≡ false =
          ap (λ (x : ℕ). nonzero (bit_and x 1))
            (rd32_value sem hw h.mapped mis_swsm refl ∙ h.swsm) in
        ground (arith, free)

  module _ {s g : ℕ} (hw : Hw D) (h : Held cell s 0 g hw) where
    abbrev asked : Hw D
    asked = (wr32m mng_sw_sm 1 1 (rd32 mis_st hw).1).1

    asked-Held : Held cell s 1 g asked
    asked-Held =
        wr32m_sm-Held sem (rd32 mis_st hw).1 (rd32-Held sem hw h mis_st refl (λ e. omega arith)) 1
          (λ e. omega arith)

    swesmbi_try_free : swesmbi_try hw ≡ (true, (rd32 mng_sw_sm asked).1)
    unfolding swesmbi_try
    swesmbi_try_free =
        let taken : nonzero (bit_and (rd32 mng_sw_sm asked).0 1) ≡ true =
          ap (λ (x : ℕ). nonzero (bit_and x 1))
            (rd32_value sem asked (asked-Held.mapped) mng_sw_sm refl ∙ asked-Held.sw_sm) in
        ground (arith, taken, check_mng_access_open sem hw h)

    swesmbi_loop_free : (n : ℕ) → swesmbi_loop (suc n) hw ≡ (true, (rd32 mng_sw_sm asked).1)
    unfolding swesmbi_loop
    swesmbi_loop_free n = ground (arith, swesmbi_try_free)

  pub get_eeprom_semaphore_free :
      {g : ℕ} (hw : Hw D)
      → Held cell 0 0 g hw
      → (hw' : Hw D) × (get_eeprom_semaphore hw ≡ (success, hw')) × Held cell 1 1 g hw'
  unfolding get_eeprom_semaphore get_swesmbi
  get_eeprom_semaphore_free hw h =
      let hw1 = (rd32 mis_swsm hw).1 in
      let h1 : Held cell 1 0 _ hw1 = rd32_swsm-Held sem hw h in
      let hw2 = asked hw1 h1 in
      let hw3 = (rd32 mng_sw_sm hw2).1 in
      let second : Bool × Hw D → Status × Hw D =
        λ t. (if t.0 then pure success else release_eeprom_semaphore >> pure err_eeprom) t.1 in
      let first : Bool × Hw D → Status × Hw D = λ t.
        (let (owned, u) = (if t.0 then pure true else smbi_last_try) t.1 in get_swesmbi owned u) in
      (
        hw3,
        ap first (smbi_loop_free hw h 3999) ∙ ap second (swesmbi_loop_free hw1 h1 3999),
        rd32-Held sem hw2 (asked-Held hw1 h1) mng_sw_sm refl (λ e. omega arith),
      )

  pub release_eeprom_semaphore-Held :
      {g : ℕ} (hw : Hw D)
      → Held cell 1 1 g hw
      → (hw' : Hw D) × (release_eeprom_semaphore hw ≡ (tt, hw')) × Held cell 0 0 g hw'
  unfolding release_eeprom_semaphore
  release_eeprom_semaphore-Held hw h =
      let hw1 = (rd32 mis_st hw).1 in
      let h1 = rd32-Held sem hw h mis_st refl (λ e. omega arith) in
      let hw2 = (wr32m mng_sw_sm 1 0 hw1).1 in
      let h2 : Held cell 1 0 _ hw2 = wr32m_sm-Held sem hw1 h1 0 (λ e. omega arith) in
      let hw3 = (wr32m mis_swsm 1 0 hw2).1 in
      let h3 : Held cell 0 0 _ hw3 = wr32m_swsm-Held sem hw2 h2 (λ e. omega arith) in
      (
        (rd32 mis_pwr hw3).1,
        ground (arith, check_mng_access_open sem hw h),
        rd32-Held sem hw3 h3 mis_pwr refl (λ e. omega arith),
      )
