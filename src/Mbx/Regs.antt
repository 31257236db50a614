-- ===== src/Mbx/Regs.antt =====
-- The registers, bits and limits of src/txgbe_mbx.h.
use txgbe.Base.{ℕ, ◌+◌, ◌*◌, ◌/◌, ◌%◌, ◌^◌, bit_or}

abbrev pub vxmailbox_size : ℕ
vxmailbox_size = 15

abbrev pub vxmailbox : ℕ
vxmailbox = 0x00600

abbrev pub vxmailbox_req : ℕ
vxmailbox_req = 2 ^ 0

abbrev pub vxmailbox_ack : ℕ
vxmailbox_ack = 2 ^ 1

abbrev pub vxmailbox_vfu : ℕ
vxmailbox_vfu = 2 ^ 2

abbrev pub vxmailbox_pfsts : ℕ
vxmailbox_pfsts = 2 ^ 4

abbrev pub vxmailbox_pfack : ℕ
vxmailbox_pfack = 2 ^ 5

abbrev pub vxmailbox_rsti : ℕ
vxmailbox_rsti = 2 ^ 6

abbrev pub vxmailbox_rstd : ℕ
vxmailbox_rstd = 2 ^ 7

abbrev pub vxmailbox_r2c_bits : ℕ
vxmailbox_r2c_bits = bit_or vxmailbox_rstd (bit_or vxmailbox_pfsts vxmailbox_pfack)

abbrev pub vxmbmem : ℕ
vxmbmem = 0x00c00

abbrev pub pxmailbox : ℕ → ℕ
pxmailbox i = 0x00600 + 4 * i

abbrev pub pxmailbox_sts : ℕ
pxmailbox_sts = 2 ^ 0

abbrev pub pxmailbox_ack : ℕ
pxmailbox_ack = 2 ^ 1

abbrev pub pxmailbox_pfu : ℕ
pxmailbox_pfu = 2 ^ 3

abbrev pub pxmbmem : ℕ → ℕ
pxmbmem i = 0x5000 + 64 * i

abbrev pub vflre : ℕ → ℕ
vflre i = 0x004a0 + 4 * i

abbrev pub vflrec : ℕ → ℕ
vflrec i = 0x004a8 + 4 * i

abbrev pub mbvficr : ℕ → ℕ
mbvficr i = 0x00480 + 4 * i

-- `vf >> 4`
abbrev pub mbvficr_index : ℕ → ℕ
mbvficr_index vf = vf / 2 ^ 4

-- `TXGBE_MBVFICR_VFREQ_VF1 << (vf % 16)`
abbrev pub vfreq_bit : ℕ → ℕ
vfreq_bit vf = 2 ^ (vf % 16)

-- `TXGBE_MBVFICR_VFACK_VF1 << (vf % 16)`
abbrev pub vfack_bit : ℕ → ℕ
vfack_bit vf = 2 ^ (16 + vf % 16)

abbrev pub vf_mbx_init_timeout : ℕ
vf_mbx_init_timeout = 2000

abbrev pub vf_mbx_init_delay : ℕ
vf_mbx_init_delay = 50
