-- ===== src/Examples/Address.antt =====
-- The theorems on the receive address table at concrete devices.
use txgbe.Base.{ℕ, ltb, ◌+◌, ◌≡◌, ◌≢◌, refl, bit, if◌then◌else◌, List, [], ◌∷◌, arith}
use txgbe.Hw.{Hw, success}
use txgbe.Reg.{failed_read_reg}
use txgbe.Rar.Regs.{psr_mac_swc_ad_h, psr_mac_swc_ad_h_av}
use txgbe.Rar.Table.{set_rar, get_mac_addr}
use txgbe.Rar.Uc.{UcAddr, update_uc_addr_list}
use txgbe.Rar.Round.{mac, get_mac_addr-set_rar}
use txgbe.Rar.Promisc.{Replaced, Follows, update_uc_addr_list_lem, update_uc_addr_list-Follows}
use txgbe.Examples.Device.{zeros, hw_over}
use txgbe.Examples.Windows.{Table, table_bus, table_cell, table_entry, table_bus-RarDevice}

-- A table of four entries, of which three are in use.
abbrev small_table : Hw Table
small_table =
    let hw : Hw Table = hw_over (zeros, λ i r. if ltb i 3 then 0x80000000 + i else 0) in
    record hw {
      mac = record (hw.mac) { num_rar_entries = 4; rar_highwater = 3 };
      addr_ctrl = record (hw.addr_ctrl) { rar_used_count = 3 };
    }

abbrev addresses : List UcAddr
addresses =
    record { addr = mac 2 0 0 0 0 7; vmdq = 1 } ∷ record { addr = mac 2 0 0 0 0 8; vmdq = 2 } ∷ []

get_mac_addr-set_rar_example :
    (get_mac_addr ⦃bus = table_bus⦄
      (set_rar ⦃bus = table_bus⦄ 0
        (mac 0x00 0x11 0x22 0x33 0x44 0x55)
        1
        psr_mac_swc_ad_h_av
        small_table).1).0
    ≡ mac 0x00 0x11 0x22 0x33 0x44 0x55
get_mac_addr-set_rar_example =
    get_mac_addr-set_rar ⦃bus = table_bus⦄ table_bus-RarDevice 0x00 0x11 0x22 0x33 0x44 0x55 1
      psr_mac_swc_ad_h_av small_table (omega arith) (omega arith) (omega arith) (omega arith)
      (omega arith) (omega arith) refl (omega arith) (λ e. omega arith)

small_table-live : (i : ℕ) → table_entry i psr_mac_swc_ad_h small_table.dev ≢ failed_read_reg
small_table-live i e = absurd (ground (arith, e))

update_uc_addr_list_lem_example :
    let after = update_uc_addr_list ⦃bus = table_bus⦄ addresses small_table in
    (after.0 ≡ success)
    × Replaced ⦃bus = table_bus⦄ table_bus-RarDevice addresses small_table after.1
update_uc_addr_list_lem_example =
    update_uc_addr_list_lem ⦃bus = table_bus⦄ table_bus-RarDevice addresses small_table refl
      (omega arith) (omega arith) (λ i lo hi. small_table-live i) (omega arith)

update_uc_addr_list-Follows_example :
    Follows table_cell (update_uc_addr_list ⦃bus = table_bus⦄ addresses small_table).1
unfolding bit
update_uc_addr_list-Follows_example =
    update_uc_addr_list-Follows ⦃bus = table_bus⦄ table_bus-RarDevice addresses small_table refl
      (omega arith) (omega arith) (λ i lo hi. small_table-live i) (omega arith) (λ e. omega arith)
      (λ e. refl)
