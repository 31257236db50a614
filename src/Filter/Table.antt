-- ===== src/Filter/Table.antt =====
-- The table of MAC filters and its image in the receive address table, src/txgbe_main.c:
-- `txgbe_full_sync_mac_table` to `txgbe_del_mac_filter`.
use txgbe.Base.{
  ℕ, zero, suc, ◌+◌, ◌-◌, ◌%◌, ◌^◌, bit_and, bit_or, nonzero, Bool, ◌==◌, ◌&&◌, not, if◌then◌else◌,
  List, get_or, set, replicate, St, ◌>>=◌, ◌>>◌, get, modify, for_range,
}
use txgbe.Hw.{Hw, Bus}
use txgbe.Rar.Regs.{psr_mac_swc_ad_h_av}
use txgbe.Rar.Table.{set_rar, clear_rar}

-- `struct txgbe_mac_addr`: six bytes, a u16 bitmask and a u64.
pub record MacAddr : Type 0 where
  pub addr : List ℕ
  pub state : ℕ
  pub pools : ℕ

abbrev pub mac_state_modified : ℕ
mac_state_modified = 2

abbrev pub mac_state_in_use : ℕ
mac_state_in_use = 4

-- What the routines return: an index, -EINVAL or -ENOMEM; 0 of a removal is `index 0`.
pub data FilterResult : Type 0 where
  index : ℕ → FilterResult
  einval enomem : FilterResult

-- The kernel's comparisons of addresses.
pub record EtherAddr : Type 0 where
  pub is_zero_ether_addr : List ℕ → Bool
  pub ether_addr_equal : List ℕ → List ℕ → Bool

-- The adapter: the hardware structure and `mac_table`.
pub record Filters (D : Type 0) : Type 0 where
  pub hw : Hw D
  pub mac_table : List MacAddr

abbrev pub no_entry : MacAddr
no_entry = record { addr = replicate 6 0; state = 0; pools = 0 }

abbrev pub in_use : MacAddr → Bool
in_use e = nonzero (bit_and e.state mac_state_in_use)

abbrev pub entry_at : {D : Type 0} → ℕ → Filters D → MacAddr
entry_at i s = get_or s.mac_table i no_entry

unfoldable pub store_entry : {D : Type 0} → ℕ → MacAddr → Filters D → Filters D
store_entry i e s = record s { mac_table = set s.mac_table i e }

-- `state &= ~TXGBE_MAC_STATE_MODIFIED` on u16.
unfoldable pub unmodified : MacAddr → MacAddr
unmodified e = record e { state = bit_and e.state 0xfffd }

-- `state |= MODIFIED; state &= ~IN_USE`
unfoldable pub released : MacAddr → MacAddr
released e = record e { state = bit_and (bit_or e.state mac_state_modified) 0xfffb }

unfoldable pub join_pool : List ℕ → ℕ → MacAddr → MacAddr
join_pool addr pool e = record e { addr = addr; pools = bit_or e.pools (2 ^ pool % 2 ^ 64) }

-- `state |= (MODIFIED | IN_USE)`, with the address and the pool.
unfoldable pub take_entry : List ℕ → ℕ → MacAddr → MacAddr
take_entry addr pool e =
    join_pool addr pool
      (record e { state = bit_or e.state (bit_or mac_state_modified mac_state_in_use) })

module _ {D : Type 0} ⦃bus : Bus D⦄ where
  unfoldable pub program_entry : ℕ → MacAddr → Hw D → Hw D
  program_entry i e hw =
      if in_use e then (set_rar i e.addr e.pools psr_mac_swc_ad_h_av hw).1 else (clear_rar i hw).1

  -- A round of `txgbe_full_sync_mac_table`.
  unfoldable pub full_sync_entry : ℕ → St (Filters D) (Unit {0})
  full_sync_entry i s =
      let e = entry_at i s in
      (tt, store_entry i (unmodified e) (record s { hw = program_entry i e s.hw }))

  -- A round of `txgbe_sync_mac_table`.
  unfoldable pub sync_entry : ℕ → St (Filters D) (Unit {0})
  sync_entry i s =
      if nonzero (bit_and (entry_at i s).state mac_state_modified)
      then full_sync_entry i s
      else (tt, s)

  unfoldable pub full_sync_mac_table : St (Filters D) (Unit {0})
  full_sync_mac_table s = for_range s.hw.mac.num_rar_entries 0 full_sync_entry s

  unfoldable pub sync_mac_table : St (Filters D) (Unit {0})
  sync_mac_table s = for_range s.hw.mac.num_rar_entries 0 sync_entry s

  unfoldable pub flush_sw_mac_table : St (Filters D) (Unit {0})
  flush_sw_mac_table = do
    s ← get
    for_range s.hw.mac.num_rar_entries 0 (λ i. modify (λ t.
        store_entry i (record (released (entry_at i t)) { addr = replicate 6 0; pools = 0 }) t))
    sync_mac_table

  module _ (ether : EtherAddr) where
    -- The loop of `txgbe_add_mac_filter` from entry `i` on, with `n` entries left.
    unfoldable pub add_from : List ℕ → ℕ → ℕ → ℕ → St (Filters D) FilterResult
    add_from addr pool zero i s = (enomem, s)
    add_from addr pool (suc n) i s =
        let rest = add_from addr pool n (i + 1) s in
        let e = entry_at i s in
        if in_use e
        then (if ether.ether_addr_equal addr e.addr && not (e.pools == 2 ^ pool % 2 ^ 64)
            then (index i, (sync_mac_table (store_entry i (join_pool addr pool e) s)).1)
            else rest)
        else (index i, (sync_mac_table (store_entry i (take_entry addr pool e) s)).1)

    unfoldable pub add_mac_filter : List ℕ → ℕ → St (Filters D) FilterResult
    add_mac_filter addr pool s =
        if ether.is_zero_ether_addr addr
        then (einval, s)
        else add_from addr pool s.hw.mac.num_rar_entries 0 s

    -- The loop of `txgbe_del_mac_filter`. The tests after the first one skip every round that
    -- reaches them, since its address is another one.
    unfoldable pub del_from : List ℕ → ℕ → ℕ → ℕ → St (Filters D) FilterResult
    del_from addr pool zero i s = (enomem, s)
    del_from addr pool (suc n) i s =
        let rest = del_from addr pool n (i + 1) s in
        let e = entry_at i s in
        if ether.ether_addr_equal addr e.addr
        then (if nonzero (bit_and e.pools (2 ^ pool % 2 ^ 64))
            then (
              index 0,
              (sync_mac_table (
                  store_entry i
                    (record (released e) {
                      pools = bit_and e.pools (2 ^ 64 - 1 - 2 ^ pool % 2 ^ 64);
                    })
                    s)).1,
            )
            else (index 0, s))
        else rest

    unfoldable pub del_mac_filter : List ℕ → ℕ → St (Filters D) FilterResult
    del_mac_filter addr pool s =
        if ether.is_zero_ether_addr addr
        then (einval, s)
        else del_from addr pool s.hw.mac.num_rar_entries 0 s
