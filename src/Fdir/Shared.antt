-- ===== src/Fdir/Shared.antt =====
-- The signature hash computes two hashes at once: src/txgbe_hw.c `txgbe_atr_compute_sig_hash`.
use txgbe.Base.{
  ℕ, ◌+◌, ◌-◌, ◌/◌, ◌^◌, ◌<◌, ◌≤◌, min, ◌≡◌, ◌∙◌, sym, ap, bit_and, bit_xor, ◌==◌, if◌then◌else◌,
  bit, bit-bit_and, bit-bit_xor, bit-le-one, bit-cases, bit-div, arith, inl, inr,
}
use txgbe.Reg.{shl32}
use txgbe.Fdir.Hash.{key_bit, SigHash, HashKeys, sig_hash_half, bkt_hash_half}
use txgbe.Fdir.Keys.{bit_xor_right, bit_xor_assoc, key_bit-bit, bit-shl32}

-- The three sums stand for the hashes `b` and `s` under the two keys: the bucket hash with the shared
-- sum is `b`, and the bits of the signature hash from 16 on with those of the shared sum are the
-- bits of `s`.
abbrev pub Stands : SigHash → ℕ → ℕ → Type 0
Stands h b s =
    (bit_xor h.bucket_hash h.common_hash ≡ b)
    × ((j : ℕ)
        → j < 16
        → (if bit (j + 16) h.sig_hash == bit j h.common_hash then 0 else 1) ≡ bit j s)

-- The cases of one half on the two key bits.
module _ (key k n w b : ℕ) where
  bkt_hash_half_on : bit k key ≡ 1 → bkt_hash_half key k n w b ≡ bit_xor b (w / 2 ^ n)
  unfolding bkt_hash_half
  bkt_hash_half_on e = ground (arith, key_bit-bit key k, e)

  bkt_hash_half_off : bit k key ≡ 0 → bkt_hash_half key k n w b ≡ b
  unfolding bkt_hash_half
  bkt_hash_half_off e = ground (arith, key_bit-bit key k, e)

module _ (keys : HashKeys) (k n w : ℕ) (h : SigHash) where
  key_bit_both :
      key_bit (bit_and keys.bucket keys.signature) k
      ≡ (min (bit k keys.bucket) (bit k keys.signature) == 1)
  key_bit_both =
      key_bit-bit (bit_and keys.bucket keys.signature) k
      ∙ ap (λ (x : ℕ). x == 1) (bit-bit_and k keys.bucket keys.signature)

  sig_hash_half_both :
      bit k keys.bucket ≡ 1
      → bit k keys.signature ≡ 1
      → sig_hash_half keys k n w h ≡ record h { common_hash = bit_xor h.common_hash (w / 2 ^ n) }
  unfolding sig_hash_half
  sig_hash_half_both p q = ground (arith, key_bit_both, p, q)

  sig_hash_half_bucket :
      bit k keys.bucket ≡ 1
      → bit k keys.signature ≡ 0
      → sig_hash_half keys k n w h ≡ record h { bucket_hash = bit_xor h.bucket_hash (w / 2 ^ n) }
  unfolding sig_hash_half
  sig_hash_half_bucket p q = ground (arith, key_bit_both, key_bit-bit keys.bucket k, p, q)

  sig_hash_half_signature :
      bit k keys.bucket ≡ 0
      → bit k keys.signature ≡ 1
      → sig_hash_half keys k n w h ≡ record h { sig_hash = bit_xor h.sig_hash (shl32 w (16 - n)) }
  unfolding sig_hash_half
  sig_hash_half_signature p q =
      ground (arith, key_bit_both, key_bit-bit keys.bucket k, key_bit-bit keys.signature k, p, q)

  sig_hash_half_none :
      bit k keys.bucket ≡ 0 → bit k keys.signature ≡ 0 → sig_hash_half keys k n w h ≡ h
  unfolding sig_hash_half
  sig_hash_half_none p q =
      ground (arith, key_bit_both, key_bit-bit keys.bucket k, key_bit-bit keys.signature k, p, q)

-- The same sums under equal names.
Stands-same :
    {h h' : SigHash} {b b' s s' : ℕ} → h' ≡ h → b' ≡ b → s' ≡ s → Stands h b s → Stands h' b' s'
Stands-same p q r (eb, es) = (
  ap (λ (x : SigHash). bit_xor x.bucket_hash x.common_hash) p ∙ eb ∙ sym q,
  λ j hj.
      ap (λ (x : SigHash). if bit (j + 16) x.sig_hash == bit j x.common_hash then 0 else 1) p
      ∙ es j hj
      ∙ ap (bit j) (sym r),
)

module _ (h : SigHash) (b s n w : ℕ) (stands : Stands h b s) where
  xor_common :
      Stands
        (record h { common_hash = bit_xor h.common_hash (w / 2 ^ n) })
        (bit_xor b (w / 2 ^ n))
        (bit_xor s (w / 2 ^ n))
  xor_common =
      let t = w / 2 ^ n in
      (
        bit_xor_assoc h.bucket_hash h.common_hash t ∙ ap (λ (x : ℕ). bit_xor x t) stands.0,
        λ j hj. ground (
          arith,
          stands.1 j hj,
          bit-bit_xor j h.common_hash t,
          bit-bit_xor j s t,
          bit-le-one j h.common_hash,
          bit-le-one j t,
          bit-le-one (j + 16) h.sig_hash,
        ),
      )

  xor_bucket :
      Stands
        (record h { bucket_hash = bit_xor h.bucket_hash (w / 2 ^ n) })
        (bit_xor b (w / 2 ^ n))
        s
  xor_bucket =
      let t = w / 2 ^ n in
      (bit_xor_right h.bucket_hash h.common_hash t ∙ ap (λ (x : ℕ). bit_xor x t) stands.0, stands.1)

  xor_signature :
      n ≤ 15
      → Stands
          (record h { sig_hash = bit_xor h.sig_hash (shl32 w (16 - n)) })
          b
          (bit_xor s (w / 2 ^ n))
  xor_signature small =
      let t = w / 2 ^ n in
      (
        stands.0,
        λ j hj.
            (let e : j + 16 - (16 - n) ≡ j + n = omega arith in
              let same : bit (j + 16) (shl32 w (16 - n)) ≡ bit j t =
                bit-shl32 (j + 16) (16 - n) w (omega arith)
                ∙ ground arith
                ∙ ap (λ (i : ℕ). bit i w) e
                ∙ sym (bit-div j n w) in
              ground (
                arith,
                same,
                stands.1 j hj,
                bit-bit_xor (j + 16) h.sig_hash (shl32 w (16 - n)),
                bit-bit_xor j s t,
                bit-le-one j h.common_hash,
                bit-le-one j t,
                bit-le-one (j + 16) h.sig_hash,
              )),
      )

module _ (keys : HashKeys) where
  pub sig_hash_half-Stands :
      (k n w : ℕ) (h : SigHash) (b s : ℕ)
      → n ≤ 15
      → Stands h b s
      → Stands
          (sig_hash_half keys k n w h)
          (bkt_hash_half keys.bucket k n w b)
          (bkt_hash_half keys.signature k n w s)
  sig_hash_half-Stands k n w h b s small st = elim (bit-cases k keys.bucket) [
    | inr p ↦ elim (bit-cases k keys.signature) [
      | inr q ↦
          Stands-same (sig_hash_half_both keys k n w h p q) (bkt_hash_half_on keys.bucket k n w b p)
            (bkt_hash_half_on keys.signature k n w s q) (xor_common h b s n w st)
      | inl q ↦
          Stands-same (sig_hash_half_bucket keys k n w h p q)
            (bkt_hash_half_on keys.bucket k n w b p) (bkt_hash_half_off keys.signature k n w s q)
            (xor_bucket h b s n w st)
    ]
    | inl p ↦ elim (bit-cases k keys.signature) [
      | inr q ↦
          Stands-same (sig_hash_half_signature keys k n w h p q)
            (bkt_hash_half_off keys.bucket k n w b p) (bkt_hash_half_on keys.signature k n w s q)
            (xor_signature h b s n w st small)
      | inl q ↦
          Stands-same (sig_hash_half_none keys k n w h p q)
            (bkt_hash_half_off keys.bucket k n w b p) (bkt_hash_half_off keys.signature k n w s q)
            st
    ]
  ]
