-- ===== src/Fdir/Filter.antt =====
-- The filters of Flow Director, src/txgbe_hw.c: `txgbe_fdir_check_cmd_complete`, the signature filter
-- and the perfect filters.
use txgbe.Base.{
  ℕ, zero, suc, ◌+◌, ◌*◌, ◌/◌, ◌%◌, ◌^◌, bit_and, bit_or, nonzero, Bool, ◌==◌, ◌||◌, not,
  if◌then◌else◌, List, get_or, St, pure, ◌>>=◌, ◌>>◌,
}
use txgbe.Hw.{Hw, Bus, Status, success, err_config, err_fdir_cmd_incomplete}
use txgbe.Reg.{rd32, wr32, shl32}
use txgbe.Fdir.Hash.{ntohl, ntohs, atr_compute_sig_hash}

abbrev pub mis_pwr : ℕ
mis_pwr = 0x10000

abbrev pub rdb_fdir_cmd : ℕ
rdb_fdir_cmd = 0x1952c

abbrev pub rdb_fdir_hash : ℕ
rdb_fdir_hash = 0x19528

abbrev pub rdb_fdir_ip6 : ℕ → ℕ
rdb_fdir_ip6 i = 0x1950c + i * 4

abbrev pub rdb_fdir_sa : ℕ
rdb_fdir_sa = 0x19518

abbrev pub rdb_fdir_da : ℕ
rdb_fdir_da = 0x1951c

abbrev pub rdb_fdir_port : ℕ
rdb_fdir_port = 0x19520

abbrev pub rdb_fdir_flex : ℕ
rdb_fdir_flex = 0x19524

abbrev pub rdb_fdir_cmd_cmd_mask : ℕ
rdb_fdir_cmd_cmd_mask = 3

abbrev pub rdb_fdir_cmd_cmd_poll : ℕ
rdb_fdir_cmd_cmd_poll = 10

abbrev pub rdb_fdir_cmd_cmd_add_flow : ℕ
rdb_fdir_cmd_cmd_add_flow = 1

abbrev pub rdb_fdir_cmd_cmd_remove_flow : ℕ
rdb_fdir_cmd_cmd_remove_flow = 2

abbrev pub rdb_fdir_cmd_cmd_query_rem_filt : ℕ
rdb_fdir_cmd_cmd_query_rem_filt = 3

abbrev pub rdb_fdir_cmd_filter_valid : ℕ
rdb_fdir_cmd_filter_valid = 4

abbrev pub rdb_fdir_cmd_filter_update : ℕ
rdb_fdir_cmd_filter_update = 8

abbrev pub rdb_fdir_cmd_drop : ℕ
rdb_fdir_cmd_drop = 0x200

abbrev pub rdb_fdir_cmd_last : ℕ
rdb_fdir_cmd_last = 0x800

abbrev pub rdb_fdir_cmd_queue_en : ℕ
rdb_fdir_cmd_queue_en = 0x8000

abbrev pub rdb_fdir_drop_queue : ℕ
rdb_fdir_drop_queue = 127

-- The formatted fields of a `union txgbe_atr_input` on its dwords.
abbrev pub vm_pool : List ℕ → ℕ
vm_pool input = get_or input 0 0 % 2 ^ 8

abbrev pub flow_type : List ℕ → ℕ
flow_type input = get_or input 0 0 / 2 ^ 8 % 2 ^ 8

abbrev pub vlan_id : List ℕ → ℕ
vlan_id input = get_or input 0 0 / 2 ^ 16

abbrev pub src_port : List ℕ → ℕ
src_port input = get_or input 9 0 % 2 ^ 16

abbrev pub dst_port : List ℕ → ℕ
dst_port input = get_or input 9 0 / 2 ^ 16

abbrev pub flex_bytes : List ℕ → ℕ
flex_bytes input = get_or input 10 0 % 2 ^ 16

abbrev pub bkt_hash : List ℕ → ℕ
bkt_hash input = get_or input 10 0 / 2 ^ 16

abbrev pub dst_ip : List ℕ → ℕ → ℕ
dst_ip input i = get_or input (1 + i) 0

abbrev pub src_ip : List ℕ → ℕ → ℕ
src_ip input i = get_or input (5 + i) 0

-- The flow types of the `switch`: TCP, UDP and SCTP, on IPv4 and IPv6.
abbrev pub known_flow_type : ℕ → Bool
known_flow_type t = (t == 2) || (t == 1) || (t == 3) || (t == 6) || (t == 5) || (t == 7)

-- The command word without the queue, the flow type and the pool.
abbrev pub add_command : ℕ
add_command =
    bit_or (bit_or (bit_or rdb_fdir_cmd_cmd_add_flow rdb_fdir_cmd_filter_update) rdb_fdir_cmd_last)
      rdb_fdir_cmd_queue_en

-- The command word of a perfect filter.
abbrev pub perfect_command : List ℕ → ℕ → ℕ
perfect_command input queue =
    let drop =
      if queue == rdb_fdir_drop_queue then bit_or add_command rdb_fdir_cmd_drop else add_command in
    bit_or (bit_or (bit_or drop (flow_type input * 2 ^ 5)) (queue * 2 ^ 16))
      (vm_pool input * 2 ^ 24)

module _ {D : Type 0} ⦃bus : Bus D⦄ where
  abbrev pub write_flush : St (Hw D) (Unit {0})
  write_flush = rd32 mis_pwr >>= λ (_ : ℕ). pure tt

  -- The poll with `n` reads left; the result has the last value read.
  unfoldable pub poll_cmd : ℕ → ℕ → St (Hw D) (Status × ℕ)
  poll_cmd zero fdircmd = pure (err_fdir_cmd_incomplete, fdircmd)
  poll_cmd (suc n) fdircmd = do
    value ← rd32 rdb_fdir_cmd
    let rest = poll_cmd n value
    if not (nonzero (bit_and value rdb_fdir_cmd_cmd_mask)) then pure (success, value) else rest

  unfoldable pub fdir_check_cmd_complete : ℕ → St (Hw D) (Status × ℕ)
  fdir_check_cmd_complete fdircmd = poll_cmd rdb_fdir_cmd_cmd_poll fdircmd

  unfoldable pub fdir_add_signature_filter : ℕ → ℕ → ℕ → St (Hw D) Status
  fdir_add_signature_filter input common queue =
      let kind = input / 2 ^ 8 % 2 ^ 8 in
      let fdircmd = bit_or (bit_or add_command (kind * 2 ^ 5)) (queue * 2 ^ 16) in
      if known_flow_type kind
      then (do
        wr32 rdb_fdir_hash (bit_or (atr_compute_sig_hash input common) (2 ^ 15))
        wr32 rdb_fdir_cmd fdircmd
        (err, _) ← fdir_check_cmd_complete fdircmd
        pure err)
      else pure err_config

  -- The addresses and ports of a filter, which are not written in cloud mode.
  unfoldable pub write_addresses : List ℕ → St (Hw D) (Unit {0})
  write_addresses input = do
    wr32 (rdb_fdir_ip6 2) (ntohl (src_ip input 0))
    wr32 (rdb_fdir_ip6 1) (ntohl (src_ip input 1))
    wr32 (rdb_fdir_ip6 0) (ntohl (src_ip input 2))
    wr32 rdb_fdir_sa (ntohl (src_ip input 0))
    wr32 rdb_fdir_da (ntohl (dst_ip input 0))
    wr32 rdb_fdir_port (bit_or (shl32 (ntohs (dst_port input)) 16) (ntohs (src_port input)))

  unfoldable pub fdir_write_perfect_filter : List ℕ → ℕ → ℕ → Bool → St (Hw D) Status
  fdir_write_perfect_filter input soft_id queue cloud_mode = do
    if cloud_mode then pure tt else write_addresses input
    wr32 rdb_fdir_flex (bit_or (shl32 (ntohs (flex_bytes input)) 16) (ntohs (vlan_id input)))
    wr32 rdb_fdir_hash (bit_or (bit_or (bkt_hash input) (2 ^ 15)) (shl32 soft_id 16))
    write_flush
    wr32 rdb_fdir_cmd (perfect_command input queue)
    (err, _) ← fdir_check_cmd_complete (perfect_command input queue)
    pure err

  -- The last step: the filter that the query found is removed.
  unfoldable pub remove_found : ℕ → ℕ → St (Hw D) Status
  remove_found fdirhash fdircmd =
      if nonzero (bit_and fdircmd rdb_fdir_cmd_filter_valid)
      then (do
        wr32 rdb_fdir_hash fdirhash
        write_flush
        wr32 rdb_fdir_cmd rdb_fdir_cmd_cmd_remove_flow
        pure success)
      else pure success

  unfoldable pub fdir_erase_perfect_filter : List ℕ → ℕ → St (Hw D) Status
  fdir_erase_perfect_filter input soft_id = do
    let fdirhash = bit_or (bkt_hash input) (shl32 soft_id 16)
    wr32 rdb_fdir_hash fdirhash
    write_flush
    wr32 rdb_fdir_cmd rdb_fdir_cmd_cmd_query_rem_filt
    (err, fdircmd) ← fdir_check_cmd_complete 0
    elim err as (λ _. St (Hw D) Status) [ success ↦ remove_found fdirhash fdircmd | _ ↦ pure err ]
