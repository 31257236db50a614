-- ===== src/Fdir/Hash.antt =====
-- The two hashes of Flow Director, src/txgbe_hw.c: `txgbe_atr_compute_sig_hash` and
-- `txgbe_atr_compute_perfect_hash`, on a host that is little endian. A `union txgbe_atr_input` is
-- its eleven dwords, in which the formatted fields lie as the union lays them.
use txgbe.Base.{
  ℕ, zero, suc, ◌+◌, ◌-◌, ◌*◌, ◌/◌, ◌%◌, ◌^◌, bit_and, bit_or, bit_xor, nonzero, Bool,
  if◌then◌else◌, List, [], ◌∷◌, get_or, set,
}
use txgbe.Reg.{shl32}

abbrev pub atr_bucket_hash_key : ℕ
atr_bucket_hash_key = 0x3dad14e2

abbrev pub atr_signature_hash_key : ℕ
atr_signature_hash_key = 0x174d3614

abbrev pub atr_hash_mask : ℕ
atr_hash_mask = 0x7fff

-- `TXGBE_NTOHL` and `TXGBE_NTOHS`.
abbrev pub ntohl : ℕ → ℕ
ntohl x =
    x % 2 ^ 8 * 2 ^ 24
    + x / 2 ^ 8 % 2 ^ 8 * 2 ^ 16
    + x / 2 ^ 16 % 2 ^ 8 * 2 ^ 8
    + x / 2 ^ 24 % 2 ^ 8

abbrev pub ntohs : ℕ → ℕ
ntohs x = x % 2 ^ 8 * 2 ^ 8 + x / 2 ^ 8 % 2 ^ 8

-- `key & (0x01 << n)`, as a test.
abbrev pub key_bit : ℕ → ℕ → Bool
key_bit key n = nonzero (bit_and key (2 ^ n))

-- The three sums of `txgbe_atr_compute_sig_hash`.
pub record SigHash : Type 0 where
  pub sig_hash : ℕ
  pub bucket_hash : ℕ
  pub common_hash : ℕ

-- Both keys, since the macro reads no other thing of them.
pub record HashKeys : Type 0 where
  pub bucket : ℕ
  pub signature : ℕ

abbrev pub atr_keys : HashKeys
atr_keys = record { bucket = atr_bucket_hash_key; signature = atr_signature_hash_key }

-- One half of TXGBE_COMPUTE_SIG_HASH_ITERATION(n): the tests of key bit `k` with the dword that goes
-- with it.
unfoldable pub sig_hash_half : HashKeys → ℕ → ℕ → ℕ → SigHash → SigHash
sig_hash_half keys k n hash_dword h =
    if key_bit (bit_and keys.bucket keys.signature) k
    then record h { common_hash = bit_xor h.common_hash (hash_dword / 2 ^ n) }
    else if key_bit keys.bucket k
    then record h { bucket_hash = bit_xor h.bucket_hash (hash_dword / 2 ^ n) }
    else if key_bit keys.signature k
    then record h { sig_hash = bit_xor h.sig_hash (shl32 hash_dword (16 - n)) }
    else h

unfoldable pub sig_hash_iteration : HashKeys → ℕ → ℕ → ℕ → SigHash → SigHash
sig_hash_iteration keys n lo_hash_dword hi_hash_dword h =
    sig_hash_half keys (n + 16) n hi_hash_dword (sig_hash_half keys n n lo_hash_dword h)

-- The iterations from `n` on, `count` of them.
unfoldable pub sig_hash_iterations : HashKeys → ℕ → ℕ → ℕ → ℕ → SigHash → SigHash
sig_hash_iterations keys zero n lo_hash_dword hi_hash_dword h = h
sig_hash_iterations keys (suc count) n lo_hash_dword hi_hash_dword h =
    sig_hash_iterations keys count (n + 1) lo_hash_dword hi_hash_dword
      (sig_hash_iteration keys n lo_hash_dword hi_hash_dword h)

-- `(hi >> 16) | (hi << 16)`
abbrev pub word_swap : ℕ → ℕ
word_swap hi = bit_or (hi / 2 ^ 16) (shl32 hi 16)

-- `flow_vm_vlan ^ (flow_vm_vlan >> 16)`, and with the other shift.
abbrev pub fold_high : ℕ → ℕ
fold_high flow_vm_vlan = bit_xor flow_vm_vlan (flow_vm_vlan / 2 ^ 16)

abbrev pub fold_low : ℕ → ℕ
fold_low flow_vm_vlan = bit_xor flow_vm_vlan (shl32 flow_vm_vlan 16)

-- The sixteen iterations over the dwords of `common`, with `flow_vm_vlan` added to the low one after
-- the first.
unfoldable pub sig_hash_sums : HashKeys → ℕ → ℕ → SigHash
sig_hash_sums keys flow_vm_vlan common =
    let lo_hash_dword = word_swap common in
    let hi_hash_dword = bit_xor common (fold_high flow_vm_vlan) in
    sig_hash_iterations keys 15 1 (bit_xor lo_hash_dword (fold_low flow_vm_vlan)) hi_hash_dword (
      sig_hash_iteration keys 0 lo_hash_dword hi_hash_dword
        (record { sig_hash = 0; bucket_hash = 0; common_hash = 0 }))

-- The last steps: the shared sum goes to both hashes.
unfoldable pub combine : SigHash → ℕ
combine h =
    bit_xor (bit_and (bit_xor h.sig_hash (shl32 h.common_hash 16)) (shl32 atr_hash_mask 16))
      (bit_and (bit_xor h.bucket_hash h.common_hash) atr_hash_mask)

unfoldable pub atr_compute_sig_hash : ℕ → ℕ → ℕ
atr_compute_sig_hash input common = combine (sig_hash_sums atr_keys (ntohl input) (ntohl common))

-- TXGBE_COMPUTE_BKT_HASH_ITERATION(n) under a key.
unfoldable pub bkt_hash_half : ℕ → ℕ → ℕ → ℕ → ℕ → ℕ
bkt_hash_half key k n hash_dword bucket_hash =
    if key_bit key k then bit_xor bucket_hash (hash_dword / 2 ^ n) else bucket_hash

unfoldable pub bkt_hash_iteration : ℕ → ℕ → ℕ → ℕ → ℕ → ℕ
bkt_hash_iteration key n lo_hash_dword hi_hash_dword bucket_hash =
    bkt_hash_half key (n + 16) n hi_hash_dword (bkt_hash_half key n n lo_hash_dword bucket_hash)

unfoldable pub bkt_hash_iterations : ℕ → ℕ → ℕ → ℕ → ℕ → ℕ → ℕ
bkt_hash_iterations key zero n lo_hash_dword hi_hash_dword bucket_hash = bucket_hash
bkt_hash_iterations key (suc count) n lo_hash_dword hi_hash_dword bucket_hash =
    bkt_hash_iterations key count (n + 1) lo_hash_dword hi_hash_dword
      (bkt_hash_iteration key n lo_hash_dword hi_hash_dword bucket_hash)

-- The sum of `txgbe_atr_compute_perfect_hash` from its two dwords.
unfoldable pub bkt_hash_sum : ℕ → ℕ → ℕ → ℕ
bkt_hash_sum key flow_vm_vlan common =
    let lo_hash_dword = word_swap common in
    let hi_hash_dword = bit_xor common (fold_high flow_vm_vlan) in
    bkt_hash_iterations key 15 1 (bit_xor lo_hash_dword (fold_low flow_vm_vlan)) hi_hash_dword
      (bkt_hash_iteration key 0 lo_hash_dword hi_hash_dword 0)

-- The loop that applies the mask.
unfoldable pub masked : List ℕ → List ℕ → List ℕ
masked [] mask = []
masked (x ∷ input) [] = x ∷ input
masked (x ∷ input) (m ∷ mask) = bit_and x m ∷ masked input mask

-- The `xor` of a list of dwords.
abbrev pub xor_all : List ℕ → ℕ → ℕ
xor_all [] hi_dword = hi_dword
xor_all (x ∷ stream) hi_dword = xor_all stream (bit_xor hi_dword x)

abbrev pub tail_of : List ℕ → List ℕ
tail_of [] = []
tail_of (x ∷ xs) = xs

-- The stream with its hash in the high half of the last dword, where `bkt_hash` lies.
unfoldable pub atr_compute_perfect_hash : List ℕ → List ℕ → List ℕ
atr_compute_perfect_hash input input_mask =
    let stream = masked input input_mask in
    let hash =
      bkt_hash_sum atr_bucket_hash_key (ntohl (get_or stream 0 0))
        (ntohl (xor_all (tail_of stream) 0)) in
    set stream 10 (get_or stream 10 0 % 2 ^ 16 + bit_and hash 0x1fff * 2 ^ 16)
