-- ===== src/Rar/Regs.antt =====
-- The registers of the receive address table, and how an address of six bytes lies in them.
use txgbe.Base.{
  ℕ, ◌/◌, ◌%◌, ◌^◌, bit_and, bit_or, Bool, ◌==◌, ◌&&◌, nonzero, if◌then◌else◌, List, [], ◌∷◌,
  get_or,
}
use txgbe.Hw.{Status, success, err_invalid_mac_addr}
use txgbe.Reg.{shl32}

abbrev pub psr_mac_swc_ad_l : ℕ
psr_mac_swc_ad_l = 0x16200

abbrev pub psr_mac_swc_ad_h : ℕ
psr_mac_swc_ad_h = 0x16204

abbrev pub psr_mac_swc_vm_l : ℕ
psr_mac_swc_vm_l = 0x16208

abbrev pub psr_mac_swc_vm_h : ℕ
psr_mac_swc_vm_h = 0x1620c

abbrev pub psr_mac_swc_idx : ℕ
psr_mac_swc_idx = 0x16210

abbrev pub psr_mac_swc_ad_h_ad : ℕ → ℕ
psr_mac_swc_ad_h_ad v = bit_and v 0xffff

abbrev pub psr_mac_swc_ad_h_adtype : ℕ → ℕ
psr_mac_swc_ad_h_adtype v = shl32 (bit_and v 1) 30

abbrev pub psr_mac_swc_ad_h_av : ℕ
psr_mac_swc_ad_h_av = 0x80000000

-- The three fields of the high register that a change of an entry replaces.
abbrev pub ad_h_mask : ℕ
ad_h_mask =
    bit_or (bit_or (psr_mac_swc_ad_h_ad 0xffffffff) (psr_mac_swc_ad_h_adtype 0xffffffff))
      psr_mac_swc_ad_h_av

-- The bytes 5 to 2 of an address, the last in the lowest place.
unfoldable pub rar_low : List ℕ → ℕ
rar_low addr =
    bit_or
      (bit_or (bit_or (get_or addr 5 0) (shl32 (get_or addr 4 0) 8)) (shl32 (get_or addr 3 0) 16))
      (shl32 (get_or addr 2 0) 24)

-- The bytes 1 and 0.
unfoldable pub rar_high : List ℕ → ℕ
rar_high addr = bit_or (get_or addr 1 0) (shl32 (get_or addr 0 0) 8)

-- What `txgbe_get_mac_addr` makes of the two registers.
unfoldable pub bytes_of : ℕ → ℕ → List ℕ
bytes_of high low =
    (high / 2 ^ 8 % 2 ^ 8)
    ∷ (high % 2 ^ 8)
    ∷ (low / 2 ^ 24 % 2 ^ 8)
    ∷ (low / 2 ^ 16 % 2 ^ 8)
    ∷ (low / 2 ^ 8 % 2 ^ 8)
    ∷ (low % 2 ^ 8)
    ∷ []

abbrev pub is_multicast : List ℕ → Bool
is_multicast address = nonzero (bit_and (get_or address 0 0) 1)

abbrev pub is_broadcast : List ℕ → Bool
is_broadcast address = (get_or address 0 0 == 0xff) && (get_or address 1 0 == 0xff)

unfoldable pub validate_mac_addr : List ℕ → Status
validate_mac_addr mac_addr =
    if is_multicast mac_addr
    then err_invalid_mac_addr
    else if is_broadcast mac_addr
    then err_invalid_mac_addr
    else if (get_or mac_addr 0 0 == 0)
        && (get_or mac_addr 1 0 == 0)
        && (get_or mac_addr 2 0 == 0)
        && (get_or mac_addr 3 0 == 0)
        && (get_or mac_addr 4 0 == 0)
        && (get_or mac_addr 5 0 == 0)
    then err_invalid_mac_addr
    else success
