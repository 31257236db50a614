-- ===== src/Rar/Round.antt =====
-- An address that is set is read back: src/txgbe_hw.c `txgbe_set_rar` and `txgbe_get_mac_addr`.
use txgbe.Base.{
  ℕ, ◌+◌, ◌*◌, ◌/◌, ◌%◌, ◌^◌, ◌<◌, ◌≡◌, ◌≢◌, ◌∙◌, refl, ap, true, bit, bit_or, bit-bit_or,
  bit-two_pow, bit-low_ones, bit-le-one, low_half, bit_or_packed, List, [], ◌∷◌, arith,
}
use txgbe.Hw.{Hw, Bus, Status}
use txgbe.Reg.{rd32, wr32, shl32, failed_read_reg}
use txgbe.Reg.Merge.{merged, bit-merged}
use txgbe.Reg.Indexed.{select-Shows, rd32-Shows, rd32_shown, rd32-entry, wr32-entry_reg}
use txgbe.Rar.Regs.{
  psr_mac_swc_ad_l, psr_mac_swc_ad_h, psr_mac_swc_idx, psr_mac_swc_ad_h_av, ad_h_mask, rar_low,
  rar_high, bytes_of,
}
use txgbe.Rar.Table.{set_rar, get_mac_addr}
use txgbe.Rar.Entry.{RarDevice, high_word, set_rar_lem, set_rar-in_range, written-Shows}

-- An address of six bytes.
abbrev pub mac : ℕ → ℕ → ℕ → ℕ → ℕ → ℕ → List ℕ
mac a b c d e f = a ∷ b ∷ c ∷ d ∷ e ∷ f ∷ []

rar_low-mac :
    (a b c d e f : ℕ)
    → c < 256
    → d < 256
    → e < 256
    → f < 256
    → rar_low (mac a b c d e f) ≡ f + e * 2 ^ 8 + d * 2 ^ 16 + c * 2 ^ 24
unfolding rar_low
rar_low-mac a b c d e f hc hd he hf =
    let e1 : shl32 e 8 ≡ e * 2 ^ 8 = omega arith in
    let d1 : shl32 d 16 ≡ d * 2 ^ 16 = omega arith in
    let c1 : shl32 c 24 ≡ c * 2 ^ 24 = omega arith in
    let x1 : bit_or f (shl32 e 8) ≡ f + e * 2 ^ 8 =
      ap (bit_or f) e1 ∙ bit_or_packed 8 f e (omega arith) in
    let x2 : bit_or (bit_or f (shl32 e 8)) (shl32 d 16) ≡ f + e * 2 ^ 8 + d * 2 ^ 16 =
      ap (λ (x : ℕ). bit_or x (shl32 d 16)) x1
      ∙ ap (bit_or (f + e * 2 ^ 8)) d1
      ∙ bit_or_packed 16 (f + e * 2 ^ 8) d (omega arith) in
    ap (λ (x : ℕ). bit_or x (shl32 c 24)) x2
    ∙ ap (bit_or (f + e * 2 ^ 8 + d * 2 ^ 16)) c1
    ∙ bit_or_packed 24 (f + e * 2 ^ 8 + d * 2 ^ 16) c (omega arith)

rar_high-mac : (a b c d e f : ℕ) → a < 256 → b < 256 → rar_high (mac a b c d e f) ≡ b + a * 2 ^ 8
unfolding rar_high
rar_high-mac a b c d e f ha hb =
    let a1 : shl32 a 8 ≡ a * 2 ^ 8 = omega arith in
    ap (bit_or b) a1 ∙ bit_or_packed 8 b a (omega arith)

bit-ad_h_mask : (k : ℕ) → k < 16 → bit k ad_h_mask ≡ 1
bit-ad_h_mask k h =
    bit-bit_or k 0x4000ffff 0x80000000
    ∙ ground (
      arith,
      bit-bit_or k 0xffff 0x40000000,
      bit-low_ones 16 k h,
      bit-le-one k 0x40000000,
      bit-le-one k 0x80000000,
    )

bit-high_word :
    (k enable_addr : ℕ) (addr : List ℕ)
    → k < 16
    → bit k (high_word addr enable_addr) ≡ bit k (rar_high addr)
bit-high_word k enable_addr addr h =
    ground (arith, bit-bit_or k (rar_high addr) psr_mac_swc_ad_h_av, bit-two_pow k 31)

-- The low half of the high word of an entry that was set is the first two bytes.
pub low_half-high :
    (old enable_addr : ℕ) (addr : List ℕ)
    → merged old ad_h_mask (high_word addr enable_addr) % 2 ^ 16 ≡ rar_high addr % 2 ^ 16
low_half-high old enable_addr addr =
    low_half (merged old ad_h_mask (high_word addr enable_addr)) (rar_high addr) λ k h. ground (
      arith,
      bit-merged k old ad_h_mask (high_word addr enable_addr) (omega arith),
      bit-ad_h_mask k h,
      bit-high_word k enable_addr addr h,
    )

bytes_of-mac :
    (high low a b c d e f : ℕ)
    → a < 256
    → b < 256
    → c < 256
    → d < 256
    → e < 256
    → f < 256
    → high % 2 ^ 16 ≡ b + a * 2 ^ 8
    → low ≡ f + e * 2 ^ 8 + d * 2 ^ 16 + c * 2 ^ 24
    → bytes_of high low ≡ mac a b c d e f
unfolding bytes_of
bytes_of-mac high low a b c d e f ha hb hc hd he hf p q =
    let pa : high / 2 ^ 8 % 2 ^ 8 ≡ a = omega arith in
    let pb : high % 2 ^ 8 ≡ b = omega arith in
    let pc : low / 2 ^ 24 % 2 ^ 8 ≡ c = omega arith in
    let pd : low / 2 ^ 16 % 2 ^ 8 ≡ d = omega arith in
    let pe : low / 2 ^ 8 % 2 ^ 8 ≡ e = omega arith in
    let pf : low % 2 ^ 8 ≡ f = omega arith in λ i. mac (pa i) (pb i) (pc i) (pd i) (pe i) (pf i)

module _ {D : Type 0} ⦃bus : Bus D⦄ {cell : ℕ → D → ℕ} {entry : ℕ → ℕ → D → ℕ}
    (ix : RarDevice bus cell entry) where
  get_mac_addr_value :
      (hw : Hw D)
      → hw.mapped ≡ true
      → (get_mac_addr hw).0
        ≡ bytes_of (entry 0 psr_mac_swc_ad_h hw.dev) (entry 0 psr_mac_swc_ad_l hw.dev)
  unfolding get_mac_addr
  get_mac_addr_value hw m =
      let hw1 = (wr32 psr_mac_swc_idx 0 hw).1 in
      let hw2 = (rd32 psr_mac_swc_ad_h hw1).1 in
      let at = select-Shows ix 0 hw m in
      let high : (rd32 psr_mac_swc_ad_h hw1).0 ≡ entry 0 psr_mac_swc_ad_h hw.dev =
        rd32_shown ix psr_mac_swc_ad_h 0 hw1 refl at
        ∙ wr32-entry_reg ix psr_mac_swc_idx 0 0 psr_mac_swc_ad_h hw (λ e. omega arith) in
      let low : (rd32 psr_mac_swc_ad_l hw2).0 ≡ entry 0 psr_mac_swc_ad_l hw.dev =
        rd32_shown ix psr_mac_swc_ad_l 0 hw2 refl (rd32-Shows ix psr_mac_swc_ad_h 0 hw1 at)
        ∙ rd32-entry ix psr_mac_swc_ad_h 0 psr_mac_swc_ad_l hw1
        ∙ wr32-entry_reg ix psr_mac_swc_idx 0 0 psr_mac_swc_ad_l hw (λ e. omega arith) in
      λ i. bytes_of (high i) (low i)

  -- On a mapped device with the receive address window, whose entry 0 does not read as all ones and
  -- is in range, `txgbe_get_mac_addr` after `txgbe_set_rar` of an address of six bytes at index 0
  -- gives the address back, whatever the pools and the valid flag.
  pub get_mac_addr-set_rar :
      (a b c d e f pools enable_addr : ℕ) (hw : Hw D)
      → a < 256
      → b < 256
      → c < 256
      → d < 256
      → e < 256
      → f < 256
      → hw.mapped ≡ true
      → 0 < hw.mac.num_rar_entries
      → entry 0 psr_mac_swc_ad_h hw.dev ≢ failed_read_reg
      → (get_mac_addr (set_rar 0 (mac a b c d e f) pools enable_addr hw).1).0 ≡ mac a b c d e f
  get_mac_addr-set_rar a b c d e f pools enable_addr hw ha hb hc hd he hf m below live =
      let addr = mac a b c d e f in
      let hw1 = (set_rar 0 addr pools enable_addr hw).1 in
      let (ok, ((vl, vh, low, high), others)) =
        set_rar_lem ix 0 pools enable_addr addr hw m below live in
      let old = entry 0 psr_mac_swc_ad_h hw.dev in
      let (still, shown) =
        written-Shows ix 0 pools (rar_low addr) (high_word addr enable_addr) hw m in
      let mapped : hw1.mapped ≡ true =
        ap (λ (t : Status × Hw D). t.1.mapped) (set_rar-in_range 0 pools enable_addr addr hw below)
        ∙ still in
      let top : rar_high addr % 2 ^ 16 ≡ b + a * 2 ^ 8 =
        ap (λ (x : ℕ). x % 2 ^ 16) (rar_high-mac a b c d e f ha hb) ∙ omega arith in
      get_mac_addr_value hw1 mapped
      ∙ bytes_of-mac _ _ a b c d e f ha hb hc hd he hf
          (ap (λ (x : ℕ). x % 2 ^ 16) high ∙ low_half-high old enable_addr addr ∙ top)
          (low ∙ rar_low-mac a b c d e f hc hd he hf)
