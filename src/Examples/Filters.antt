-- ===== src/Examples/Filters.antt =====
-- The theorem on a new MAC filter at a concrete table.
use txgbe.Base.{◌<◌, refl, suc, zero, ℕ, ◌==◌, ◌&&◌, List, [], ◌∷◌, replicate, arith}
use txgbe.Hw.{Hw}
use txgbe.Rar.Regs.{rar_low, rar_high}
use txgbe.Filter.Table.{Filters, EtherAddr, no_entry, entry_at, add_mac_filter}
use txgbe.Filter.Sync.{IsSynced}
use txgbe.Filter.Outcome.{Added}
use txgbe.Filter.Added.{add_mac_filter-Added}
use txgbe.Examples.Device.{Memory, zeros, ram_bus, hw_over}

abbrev ether : EtherAddr
ether = record {
  is_zero_ether_addr = λ a. (rar_low a == 0) && (rar_high a == 0);
  ether_addr_equal = λ a b. (rar_low a == rar_low b) && (rar_high a == rar_high b);
}

abbrev address : List ℕ
address = 2 ∷ 0 ∷ 0 ∷ 0 ∷ 0 ∷ 7 ∷ []

-- Four entries, of which the first one is in use for the pool 0.
abbrev adapter : Filters Memory
adapter =
    let hw : Hw Memory = hw_over zeros in
    record {
      hw = record hw { mac = record (hw.mac) { num_rar_entries = 4 } };
      mac_table = record { addr = address; state = 5; pools = 1 } ∷ replicate 3 no_entry;
    }

adapter-IsSynced : (j : ℕ) → j < 4 → IsSynced (entry_at j adapter)
adapter-IsSynced zero h = refl
adapter-IsSynced (suc zero) h = refl
adapter-IsSynced (suc (suc zero)) h = refl
adapter-IsSynced (suc (suc (suc zero))) h = refl
adapter-IsSynced (suc (suc (suc (suc j)))) h = absurd (omega arith)

-- A second pool for the address of the first entry.
add_mac_filter-Added_example :
    let after = add_mac_filter ⦃bus = ram_bus⦄ ether address 3 adapter in
    Added ether address 3 ⦃bus = ram_bus⦄ adapter after.1 after.0
add_mac_filter-Added_example =
    add_mac_filter-Added ⦃bus = ram_bus⦄ ether address 3 (omega arith) adapter (omega arith)
      adapter-IsSynced
