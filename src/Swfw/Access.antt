-- ===== src/Swfw/Access.antt =====
-- Whether the management registers may be used: src/txgbe_hw.c `txgbe_check_mng_access`.
use txgbe.Base.{
  ℕ, zero, suc, ◌+◌, ◌/◌, ◌^◌, bit_and, nonzero, Bool, true, false, ◌==◌, not, if◌then◌else◌, St,
  pure, ◌>>=◌, get,
}
use txgbe.Hw.{Hw, Bus}
use txgbe.Reg.{rd32}

abbrev pub mis_st : ℕ
mis_st = 0x10028

abbrev pub mis_st_mng_init_dn : ℕ
mis_st_mng_init_dn = 1

abbrev pub mis_rst_st : ℕ
mis_rst_st = 0x10030

abbrev pub mis_rst_st_rst_init : ℕ
mis_rst_st_rst_init = 0xff00

abbrev pub sp_mpw : ℕ
sp_mpw = 1

abbrev pub flag2_mng_reg_access_disabled : ℕ
flag2_mng_reg_access_disabled = 2 ^ 22

-- The flag is down.
abbrev pub access_enabled : {D : Type 0} → Hw D → Bool
access_enabled hw = not (nonzero (bit_and hw.back.flags2 flag2_mng_reg_access_disabled))

module _ {D : Type 0} ⦃bus : Bus D⦄ where
  unfoldable pub mng_present : St (Hw D) Bool
  mng_present = do fwsm ← rd32 mis_st; pure (nonzero (bit_and fwsm mis_st_mng_init_dn))

  -- The loop that waits for the flag to go down.
  unfoldable pub wait_enabled : ℕ → St (Hw D) Bool
  wait_enabled zero = pure false
  wait_enabled (suc n) = do
    hw ← get
    let rest = wait_enabled n
    if access_enabled hw then pure true else rest

  unfoldable pub check_mng_access : St (Hw D) Bool
  check_mng_access = do
    hw ← get
    present ← mng_present
    if not present
        then pure false
        else if not (hw.revision_id == sp_mpw)
        then pure true
        else if access_enabled hw
        then pure true
        else do
          rst_st ← rd32 mis_rst_st
          wait_enabled (bit_and rst_st mis_rst_st_rst_init / 2 ^ 8 + 2)
