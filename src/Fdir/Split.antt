-- ===== src/Fdir/Split.antt =====
-- The signature hash is two bucket hashes: src/txgbe_hw.c `txgbe_atr_compute_sig_hash` against the
-- sum of `txgbe_atr_compute_perfect_hash`.
use txgbe.Base.{
  ℕ, zero, suc, ◌+◌, ◌-◌, ◌^◌, ◌<◌, ◌≤◌, ◌≡◌, ◌∙◌, refl, sym, ap, bit_and, bit_xor, ◌==◌, ltb,
  if◌then◌else◌, bit, bit_ext, bit-bit_and, bit-bit_xor, bit-zero, bit_above, bit_and_comm,
  bit_and-lt, Bool-cases, inl, inr, arith,
}
use txgbe.Reg.{shl32}
use txgbe.Fdir.Hash.{
  SigHash, HashKeys, atr_keys, atr_hash_mask, atr_bucket_hash_key, atr_signature_hash_key,
  word_swap, fold_high, fold_low, sig_hash_iteration, sig_hash_iterations, sig_hash_sums, combine,
  atr_compute_sig_hash, bkt_hash_iteration, bkt_hash_iterations, bkt_hash_sum, ntohl,
}
use txgbe.Fdir.Hash.{sig_hash_half, bkt_hash_half}
use txgbe.Fdir.Keys.{bit-shl32}
use txgbe.Fdir.Shared.{Stands, sig_hash_half-Stands}

module _ (keys : HashKeys) where
  iteration-Stands :
      (n lo hi : ℕ) (h : SigHash) (b s : ℕ)
      → n ≤ 15
      → Stands h b s
      → Stands
          (sig_hash_iteration keys n lo hi h)
          (bkt_hash_iteration keys.bucket n lo hi b)
          (bkt_hash_iteration keys.signature n lo hi s)
  unfolding sig_hash_iteration bkt_hash_iteration
  iteration-Stands n lo hi h b s small st =
      sig_hash_half-Stands keys (n + 16) n hi (sig_hash_half keys n n lo h)
        (bkt_hash_half keys.bucket n n lo b) (bkt_hash_half keys.signature n n lo s) small
        (sig_hash_half-Stands keys n n lo h b s small st)

  iterations-Stands :
      (count n lo hi : ℕ) (h : SigHash) (b s : ℕ)
      → n + count ≤ 16
      → Stands h b s
      → Stands
          (sig_hash_iterations keys count n lo hi h)
          (bkt_hash_iterations keys.bucket count n lo hi b)
          (bkt_hash_iterations keys.signature count n lo hi s)
  unfolding sig_hash_iterations bkt_hash_iterations
  iterations-Stands zero n lo hi h b s small st = st
  iterations-Stands (suc count) n lo hi h b s small st =
      iterations-Stands count (n + 1) lo hi (sig_hash_iteration keys n lo hi h)
        (bkt_hash_iteration keys.bucket n lo hi b) (bkt_hash_iteration keys.signature n lo hi s)
        (omega arith) (iteration-Stands n lo hi h b s (omega arith) st)

  sums-Stands :
      (flow common : ℕ)
      → Stands
          (sig_hash_sums keys flow common)
          (bkt_hash_sum keys.bucket flow common)
          (bkt_hash_sum keys.signature flow common)
  unfolding sig_hash_sums bkt_hash_sum
  sums-Stands flow common =
      let lo = word_swap common in
      let hi = bit_xor common (fold_high flow) in
      let none : SigHash = record { sig_hash = 0; bucket_hash = 0; common_hash = 0 } in
      let start : Stands none 0 0 = (refl, λ j hj. ground (arith, bit-zero j, bit-zero (j + 16))) in
      iterations-Stands 15 1 (bit_xor lo (fold_low flow)) hi (sig_hash_iteration keys 0 lo hi none)
        (bkt_hash_iteration keys.bucket 0 lo hi 0) (bkt_hash_iteration keys.signature 0 lo hi 0)
        (omega arith) (iteration-Stands 0 lo hi none 0 0 (omega arith) start)

-- The upper half of `combine`.
module _ (h : SigHash) (b s : ℕ) (stands : Stands h b s) where
  abbrev upper : ℕ
  upper = bit_and (bit_xor h.sig_hash (shl32 h.common_hash 16)) (shl32 atr_hash_mask 16)

  bit-upper_low : (k : ℕ) → k < 32 → bit k upper ≡ bit k (shl32 (bit_and s atr_hash_mask) 16)
  bit-upper_low k hk = elim (Bool-cases (ltb k 16)) [
    | inl lo ↦ ground (
      arith,
      bit-bit_and k (bit_xor h.sig_hash (shl32 h.common_hash 16)) (shl32 atr_hash_mask 16),
      bit-shl32 k 16 atr_hash_mask hk,
      bit-shl32 k 16 (bit_and s atr_hash_mask) hk,
    )
    | inr hi ↦
        let j = k - 16 in
        let back : j + 16 ≡ k = ground arith in
        let both : (if bit k h.sig_hash == bit j h.common_hash then 0 else 1) ≡ bit j s =
          ap (λ (i : ℕ). if bit i h.sig_hash == bit j h.common_hash then 0 else 1) (sym back)
          ∙ stands.1 j (omega arith) in
        bit-bit_and k (bit_xor h.sig_hash (shl32 h.common_hash 16)) (shl32 atr_hash_mask 16)
        ∙ ground (
          arith,
          both,
          bit-bit_xor k h.sig_hash (shl32 h.common_hash 16),
          bit-shl32 k 16 h.common_hash hk,
          bit-shl32 k 16 atr_hash_mask hk,
          bit-shl32 k 16 (bit_and s atr_hash_mask) hk,
          bit-bit_and j s atr_hash_mask,
        )
  ]

  upper_value : upper ≡ shl32 (bit_and s atr_hash_mask) 16
  upper_value = bit_ext _ _ λ k. elim (Bool-cases (ltb k 32)) [
    | inl lo ↦ bit-upper_low k (ground arith)
    | inr hi ↦
        let x = bit_xor h.sig_hash (shl32 h.common_hash 16) in
        let m = shl32 atr_hash_mask 16 in
        let small : upper < 2 ^ 32 =
          omega (arith, bit_and_comm x m, bit_and-lt 32 m x (omega arith)) in
        bit_above 32 k upper small (ground arith)
        ∙ sym (bit_above 32 k (shl32 (bit_and s atr_hash_mask) 16) (omega arith) (ground arith))
  ]

-- `txgbe_atr_compute_sig_hash`, which shares the work of its two keys, gives the fifteen lowest
-- bits of the sum that `txgbe_atr_compute_perfect_hash` computes, once under the bucket key in the low half
-- and once under the signature key in the high half.
pub atr_compute_sig_hash_lem :
    (input common : ℕ)
    → let sum = λ (key : ℕ). bkt_hash_sum key (ntohl input) (ntohl common) in
      atr_compute_sig_hash input common
      ≡ bit_xor
          (shl32 (bit_and (sum atr_signature_hash_key) atr_hash_mask) 16)
          (bit_and (sum atr_bucket_hash_key) atr_hash_mask)
unfolding atr_compute_sig_hash combine
atr_compute_sig_hash_lem input common =
    let flow = ntohl input in
    let word = ntohl common in
    let h = sig_hash_sums atr_keys flow word in
    let b = bkt_hash_sum atr_bucket_hash_key flow word in
    let s = bkt_hash_sum atr_signature_hash_key flow word in
    let st : Stands h b s = sums-Stands atr_keys flow word in
    let up = upper_value h b s st in
    let down = st.0 in λ i. bit_xor (up i) (bit_and (down i) atr_hash_mask)
