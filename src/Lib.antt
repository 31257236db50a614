-- ===== src/Lib.antt =====
-- A model of the parts of the txgbe network driver that decide what the hardware does, with the
-- theorems that say what they guarantee.
--
-- Base: shared names, C arrays as lists (Base/Lists), bits of words (Base/Bits), the state monad
--   and counted loops (Base/State, Base/Loop).
-- Hw: `struct txgbe_hw`, its parts and the status codes (src/txgbe_type.h). The device behind the
--   register window is a parameter: a type of device states with `readl` and `writel`. A null
--   `hw_addr` is the field `mapped`.
-- Reg: `rd32`, `wr32`, `rd32m`, `wr32m`, `po32m` (src/txgbe_type.h). Reg/Ram is the law of a device
--   whose registers hold what was written to them, a hypothesis of the theorems that say what
--   registers hold.
-- Mbx: the mailbox between the physical function and its virtual functions (src/txgbe_mbx.c,
--   src/txgbe_mbx.h): registers (Mbx/Regs), counters and copies (Mbx/Stats), the VF's end (Mbx/Vf),
--   the PF's end (Mbx/Pf), the dispatch, the polls and the posted calls (Mbx/Ops). A function
--   pointer is the end whose routine it names. Mbx/Window is the law of the shared memory.
-- Dcb: data centre bridging (src/txgbe_dcb.c, src/txgbe_dcb.h): configuration (Dcb/Config), credits
--   (Dcb/Credits, Dcb/Cee), unpacking (Dcb/Unpack), the registers of priority flow control
--   (Dcb/PfcHw), the arbiters (Dcb/Arbiter), the port and the whole configuration (Dcb/Port).
-- Fc: link flow control (src/txgbe_hw.c): `txgbe_negotiate_fc` (Fc/Negotiate), where the
--   advertisements come from (Fc/Autoneg), `txgbe_fc_enable` (Fc/Enable). What the MAC's
--   `check_link` and the PHY library give is a parameter.
-- Vlan: the VLAN filter table and the pool filter (src/txgbe_hw.c, Vlan/Filter).
-- Mta: the multicast table and its shadow (src/txgbe_hw.c, Mta/Table). The addresses that the
--   iterator gives are a list.
-- Rar: the receive address table (src/txgbe_hw.c): its registers and the packing of an address
--   (Rar/Regs), the operations (Rar/Table), the list of secondary addresses (Rar/Uc) and
--   `txgbe_insert_mac_addr` (Rar/Insert). Reg/Indexed is the law of a device that shows the entry
--   which an index register selects.
-- Fdir: Flow Director (src/txgbe_hw.c): the hashes (Fdir/Hash), the filters (Fdir/Filter) and the
--   input mask (Fdir/Mask), on a little endian host. An input is its eleven dwords.
-- Swfw: the semaphores shared with the firmware and the other port (src/txgbe_hw.c): whether
--   management is open (Swfw/Access), getting and releasing (Swfw/Sync). Swfw/Device is the law of a
--   register that a read takes, on a device whose guarding registers no other agent uses meanwhile;
--   the registers beyond, the firmware's mailbox among them, may hold anything.
-- Hic: the host interface to the firmware (src/txgbe_hw.c, Hic/Command) and, over it, the words of the
--   EEPROM (Hic/Eeprom), its image and checksum (Hic/Image), on a little endian host. The loop over
--   the chunks of a buffer has the number of words as fuel, which is enough.
-- Pcierr: the recovery from bus errors (src/txgbe_pcierr.c). The world of the kernel and of the
--   drivers' callbacks is a parameter (Pcierr/Recovery).
-- Sriov: the physical function's side of SR-IOV (src/txgbe_sriov.c): the request of a virtual function
--   for multicast addresses (Sriov/Multicast), on a little endian host. What the function keeps for a
--   virtual function is an argument and a result.
-- Filter: the driver's table of MAC filters (src/txgbe_main.c, Filter/Table), which it writes to the
--   receive address table through Rar. The kernel's comparisons of addresses are a parameter.
-- Examples: concrete devices and the theorems applied to them.
--
-- The mailbox and flow control act on the device through Reg only; Fc shares the threshold registers
-- with Dcb/PfcHw, Sriov the multicast table with Mta, and Filter the receive addresses with Rar; Hic
-- takes and gives back the mailbox and the flash through Swfw, and Vlan asks the port control register
-- that Dcb/Port sets whether pools are on.
--
-- A function that changes the hardware structure is a state function on it; errors are values of
-- `Status`. Registers and counters are natural numbers, with `% 2 ^ 32` written where u32 arithmetic
-- wraps. Loops with a counter are structural on the rounds that are left (`for_range`, the polls),
-- so no fuel is needed: `countdown` and `loop` of the source are the structure. The wait of the bus
-- recovery has fuel for 17 rounds, after which its delay has passed the limit. Delays, log messages
-- and locks of the kernel are not modelled.
--
-- Not modelled: the data path and the kernel callbacks (src/txgbe_main.c but for the MAC filters,
-- src/txgbe_lib.c), the user interfaces, PTP, FCoE and XSK, the PHY vendor's library, the kernel
-- compatibility layer, of src/txgbe_hw.c the set-up of the Flow Director tables, the flash and
-- firmware commands, resets and link set-up, and of src/txgbe_sriov.c all but `txgbe_set_vf_multicasts`.
pub mod Base
pub mod Hw
pub mod Reg
pub mod Mbx
pub mod Dcb
pub mod Fc
pub mod Fdir
pub mod Hic
pub mod Swfw
pub mod Vlan
pub mod Examples
pub mod Mta
pub mod Pcierr
pub mod Rar
pub mod Sriov
pub mod Filter
