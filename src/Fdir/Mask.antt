-- ===== src/Fdir/Mask.antt =====
-- src/txgbe_hw.c `txgbe_fdir_set_input_mask`, in the build with SR-IOV: `pool` is VMDQ_P(0), the
-- first pool of the driver, which the adapter keeps.
use txgbe.Base.{
  ℕ, ◌+◌, ◌*◌, ◌/◌, ◌%◌, ◌^◌, bit_and, bit_or, nonzero, ◌==◌, ◌||◌, not, if◌then◌else◌, Bool, List,
  St, pure, ◌>>=◌, ◌>>◌,
}
use txgbe.Hw.{Hw, Bus, Status, success, err_config}
use txgbe.Reg.{rd32m, wr32, not32, shl32}
use txgbe.Fdir.Hash.{ntohl, ntohs}
use txgbe.Fdir.Filter.{vm_pool, flow_type, src_port, dst_port, flex_bytes, src_ip, dst_ip}

abbrev pub rdb_fdir_other_msk : ℕ
rdb_fdir_other_msk = 0x19570

abbrev pub rdb_fdir_other_msk_pool : ℕ
rdb_fdir_other_msk_pool = 4

abbrev pub rdb_fdir_other_msk_l4p : ℕ
rdb_fdir_other_msk_l4p = 8

abbrev pub rdb_fdir_flex_cfg : ℕ → ℕ
rdb_fdir_flex_cfg i = 0x19580 + i * 4

abbrev pub rdb_fdir_flex_cfg_msk : ℕ
rdb_fdir_flex_cfg_msk = 4

abbrev pub rdb_fdir_tcp_msk : ℕ
rdb_fdir_tcp_msk = 0x19544

abbrev pub rdb_fdir_udp_msk : ℕ
rdb_fdir_udp_msk = 0x19548

abbrev pub rdb_fdir_sctp_msk : ℕ
rdb_fdir_sctp_msk = 0x19560

abbrev pub rdb_fdir_sa4_msk : ℕ
rdb_fdir_sa4_msk = 0x19540

abbrev pub rdb_fdir_da4_msk : ℕ
rdb_fdir_da4_msk = 0x1953c

-- The mask of the three fields of a pool in the flex register: base, mask and offset.
abbrev pub flex_fields : ℕ
flex_fields = bit_or (bit_or 0x3 rdb_fdir_flex_cfg_msk) 0xf8

unfoldable pub get_fdirtcpm : List ℕ → ℕ
get_fdirtcpm input_mask =
    bit_or (shl32 (ntohs (dst_port input_mask)) 16) (ntohs (src_port input_mask))

-- The first switch: the pool is masked out or matched as a whole.
abbrev pub pool_supported : List ℕ → Bool
pool_supported input_mask =
    (bit_and (vm_pool input_mask) 0x7f == 0) || (bit_and (vm_pool input_mask) 0x7f == 0x7f)

-- The second: so is the layer 4 type, and without it no port is matched.
abbrev pub l4type_supported : List ℕ → Bool
l4type_supported input_mask =
    if bit_and (flow_type input_mask) 3 == 0
    then not (nonzero (dst_port input_mask) || nonzero (src_port input_mask))
    else bit_and (flow_type input_mask) 3 == 3

abbrev pub other_mask : List ℕ → ℕ
other_mask input_mask =
    let pool = if bit_and (vm_pool input_mask) 0x7f == 0 then rdb_fdir_other_msk_pool else 0 in
    if bit_and (flow_type input_mask) 3 == 0 then bit_or pool rdb_fdir_other_msk_l4p else pool

module _ {D : Type 0} ⦃bus : Bus D⦄ where
  -- The masks of the ports and of the addresses.
  unfoldable pub write_port_masks : List ℕ → St (Hw D) Status
  write_port_masks input_mask = do
    let fdirtcpm = get_fdirtcpm input_mask
    wr32 rdb_fdir_tcp_msk (not32 fdirtcpm)
    wr32 rdb_fdir_udp_msk (not32 fdirtcpm)
    wr32 rdb_fdir_sctp_msk (not32 fdirtcpm)
    wr32 rdb_fdir_sa4_msk (ntohl (not32 (src_ip input_mask 0)))
    wr32 rdb_fdir_da4_msk (ntohl (not32 (dst_ip input_mask 0)))
    pure success

  -- The switch over the flexible bytes, with `flex` as read and set up before.
  unfoldable pub write_flex : List ℕ → ℕ → ℕ → St (Hw D) Status
  write_flex input_mask pool flex =
      let bytes = bit_and (flex_bytes input_mask) 0xffff in
      let reg = rdb_fdir_flex_cfg (pool / 4) in
      if bytes == 0
      then wr32 reg (bit_or flex (shl32 rdb_fdir_flex_cfg_msk (8 * (pool % 4))))
        >> write_port_masks input_mask
      else if bytes == 0xffff
      then wr32 reg flex >> write_port_masks input_mask
      else pure err_config

  unfoldable pub fdir_set_input_mask : List ℕ → ℕ → St (Hw D) Status
  fdir_set_input_mask input_mask pool =
      let j = pool % 4 in
      if pool_supported input_mask
      then (if l4type_supported input_mask
          then (do
            wr32 rdb_fdir_other_msk (other_mask input_mask)
            flex ← rd32m (rdb_fdir_flex_cfg (pool / 4)) (not32 (shl32 flex_fields (8 * j)))
            write_flex input_mask pool (bit_or flex (shl32 (0x6 * 2 ^ 3) (8 * j))))
          else pure err_config)
      else pure err_config
