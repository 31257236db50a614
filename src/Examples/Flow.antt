-- ===== src/Examples/Flow.antt =====
-- The theorems on Flow Director at concrete inputs.
use txgbe.Base.{◌≡◌, bit_and, bit_xor}
use txgbe.Reg.{shl32}
use txgbe.Fdir.Hash.{
  atr_compute_sig_hash, bkt_hash_sum, ntohl, atr_hash_mask, atr_bucket_hash_key,
  atr_signature_hash_key,
}
use txgbe.Fdir.Split.{atr_compute_sig_hash_lem}

atr_compute_sig_hash_lem_example :
    atr_compute_sig_hash 0x12340206 0x0a0b0c0d
    ≡ bit_xor
        (shl32
          (bit_and
            (bkt_hash_sum atr_signature_hash_key (ntohl 0x12340206) (ntohl 0x0a0b0c0d))
            atr_hash_mask)
          16)
        (bit_and
          (bkt_hash_sum atr_bucket_hash_key (ntohl 0x12340206) (ntohl 0x0a0b0c0d))
          atr_hash_mask)
atr_compute_sig_hash_lem_example = atr_compute_sig_hash_lem 0x12340206 0x0a0b0c0d
