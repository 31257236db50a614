-- ===== src/Filter/Outcome.antt =====
-- What the results of src/txgbe_main.c `txgbe_add_mac_filter` mean.
use txgbe.Base.{ℕ, ◌^◌, ◌<◌, ◌≡◌, ◌≢◌, Bool, true, false, ◌⊎◌, ◌&&◌, not, ◌==◌, bit_or, List}
use txgbe.Hw.{Bus}
use txgbe.Rar.Regs.{psr_mac_swc_ad_h_av}
use txgbe.Rar.Table.{set_rar}
use txgbe.Filter.Table.{
  MacAddr, Filters, FilterResult, EtherAddr, index, einval, enomem, in_use, entry_at,
}
use txgbe.Filter.Sync.{IsSynced}

-- The filter of the address with the pool added to those of the entry.
abbrev pub with_pool : List ℕ → ℕ → MacAddr → MacAddr
with_pool addr pool e = record e { addr = addr; pools = bit_or e.pools (2 ^ pool) }

module _ (ether : EtherAddr) (addr : List ℕ) (pool : ℕ) where
  -- The entry holds the address, for another set of pools than the one alone.
  abbrev pub holds : MacAddr → Bool
  holds e = ether.ether_addr_equal addr e.addr && not (e.pools == 2 ^ pool)

  module _ {D : Type 0} where
    -- The addition passes over the first entries: each is in use and does not hold the address.
    abbrev pub PassedOver : ℕ → Filters D → Type 0
    PassedOver n s =
        (j : ℕ) → j < n → (in_use (entry_at j s) ≡ true) × (holds (entry_at j s) ≡ false)

    -- The pool is added to an entry in use that holds the address. The hardware is not told.
    pub record Joined (i : ℕ) (s after : Filters D) : Type 0 where
      pub used : in_use (entry_at i s) ≡ true
      pub held : holds (entry_at i s) ≡ true
      pub entry : entry_at i after ≡ with_pool addr pool (entry_at i s)
      pub hardware : after.hw ≡ s.hw

    -- A free entry is taken and written to the receive address table.
    pub record Taken ⦃bus : Bus D⦄ (i : ℕ) (s after : Filters D) : Type 0 where
      pub free : in_use (entry_at i s) ≡ false
      pub used : in_use (entry_at i after) ≡ true
      pub address : (entry_at i after).addr ≡ addr
      pub pools : (entry_at i after).pools ≡ bit_or (entry_at i s).pools (2 ^ pool)
      pub hardware :
          after.hw
          ≡ (set_rar i addr (bit_or (entry_at i s).pools (2 ^ pool)) psr_mac_swc_ad_h_av s.hw).1

    -- What a result of the addition says of the adapter before and after.
    unfoldable pub Added : ⦃bus : Bus D⦄ → Filters D → Filters D → FilterResult → Type 0
    Added s after (index i) =
        (i < s.hw.mac.num_rar_entries)
        × PassedOver i s
        × (Joined i s after ⊎ Taken i s after)
        × ((j : ℕ) → i ≢ j → entry_at j after ≡ entry_at j s)
        × ((j : ℕ) → j < s.hw.mac.num_rar_entries → IsSynced (entry_at j after))
    Added s after einval = (ether.is_zero_ether_addr addr ≡ true) × (after ≡ s)
    Added s after enomem = PassedOver s.hw.mac.num_rar_entries s × (after ≡ s)
