-- ===== src/Examples/Windows.antt =====
-- A device with the receive address window, and one with the semaphore that a read takes.
use txgbe.Base.{ℕ, refl, bit_or, ◌==◌, ◌&&◌, if◌then◌else◌, arith}
use txgbe.Hw.{Bus}
use txgbe.Rar.Regs.{psr_mac_swc_idx}
use txgbe.Rar.Entry.{RarDevice, swc}
use txgbe.Swfw.Sync.{mis_swsm}
use txgbe.Swfw.Access.{mis_st}
use txgbe.Hic.Command.{mng_mbox, mng_mbox_ctl}
use txgbe.Swfw.Device.{Sem}
use txgbe.Examples.Device.{Memory, update, ram_cell}

-- The registers outside the window, and the entries of the table.
abbrev pub Table : Type 0
Table = Memory × (ℕ → Memory)

abbrev pub table_bus : Bus Table
table_bus = record {
  readl = λ a (m, t). (if swc a then t (m psr_mac_swc_idx) a else m a, (m, t));
  writel = λ a v (m, t). (
    if swc a then m else update a v m,
    λ i r. if swc a && (i == m psr_mac_swc_idx) && (r == a) then v else t i r,
  );
}

abbrev pub table_cell : ℕ → Table → ℕ
table_cell a d = d.0 a

abbrev pub table_entry : ℕ → ℕ → Table → ℕ
table_entry i r d = d.1 i r

pub table_bus-RarDevice : RarDevice table_bus table_cell table_entry
table_bus-RarDevice = record {
  outside = refl;
  load = λ a d h. ground (arith, h);
  load_entry = λ a d h. ground (arith, h);
  read_keeps = λ a b d. refl;
  read_keeps_entry = λ a i r d. refl;
  store = λ a v d h. ground (arith, h);
  store_entry = λ a v d h. ground (arith, h);
  write_keeps = λ a b v d ne. ground (arith, ne);
  write_keeps_reg = λ a v i r d ne. ground (arith, ne);
  write_keeps_entry = λ a v i r d ne. ground (arith, ne);
}

abbrev pub sem_bus : Bus Memory
sem_bus = record {
  readl = λ a d. (d a, if a == mis_swsm then update mis_swsm (bit_or (d mis_swsm) 1) d else d);
  writel = update;
}

pub sem_bus-Sem : Sem sem_bus ram_cell
sem_bus-Sem = record {
  load = λ a d g. refl;
  load_st = λ d. refl;
  read_takes = λ d. refl;
  read_keeps = λ a b d g ne. ground (arith, ne);
  read_leaves = λ a d ne. ground (arith, ne);
  read_calm = λ a d c. ground arith;
  store = λ a v d g. ground arith;
  write_keeps = λ a b v d g ne. ground (arith, ne);
  write_calm = λ a v d g. ground (arith, g);
}

-- A firmware behind the mailbox: it answers a command when the driver signals it, and management is down
-- from then on until the mailbox is read.
abbrev pub firmware_bus : Bus Memory
firmware_bus = record {
  readl = λ a d. (
    d a,
    if a == mis_swsm
        then update mis_swsm (bit_or (d mis_swsm) 1) d
        else if a == mng_mbox
        then update mis_st 1 d
        else d,
  );
  writel = λ a v d.
      if a == mng_mbox_ctl
      then update mis_st 0 (update mng_mbox 0xce000400 (update a v d))
      else update a v d;
}

pub firmware_bus-Sem : Sem firmware_bus ram_cell
firmware_bus-Sem = record {
  load = λ a d g. refl;
  load_st = λ d. refl;
  read_takes = λ d. refl;
  read_keeps = λ a b d g ne. ground (arith, g, ne);
  read_leaves = λ a d ne. ground (arith, ne);
  read_calm = λ a d c. ground (arith, c);
  store = λ a v d g. ground (arith, g);
  write_keeps = λ a b v d g ne. ground (arith, g, ne);
  write_calm = λ a v d g. ground (arith, g);
}
