-- ===== src/Examples/Device.antt =====
-- A device whose registers are a memory, and the hardware structure around it.
use txgbe.Base.{
  ℕ, ◌+◌, ◌-◌, ◌*◌, ap, ltb, leb, some, ◌==◌, ◌&&◌, true, false, if◌then◌else◌, replicate, refl,
  arith, [], ◌∷◌,
}
use txgbe.Hw.{Hw, Bus, FcInfo, eeprom_flash, fc_full, media_fiber, pf_side}
use txgbe.Mbx.Regs.{vxmbmem, pxmbmem}
use txgbe.Mbx.Window.{Window}
use txgbe.Reg.Ram.{Ram}

abbrev pub Memory : Type 0
Memory = ℕ → ℕ

abbrev pub zeros : Memory
zeros _ = 0

abbrev pub update : ℕ → ℕ → Memory → Memory
update a v d b = if b == a then v else d b

abbrev pub ram_bus : Bus Memory
ram_bus = record { readl = λ a d. (d a, d); writel = update }

abbrev pub ram_cell : ℕ → Memory → ℕ
ram_cell a d = d a

pub ram_bus-Ram : Ram ram_bus ram_cell
ram_bus-Ram = record {
  load = λ a d. refl;
  read_keeps = λ a b d. refl;
  store = λ a v d. ground arith;
  write_keeps = λ a b v d ne. ground arith;
}

-- The VF's view: its mailbox memory is the PF's memory of VF 0, its other registers are its own.
abbrev pub translate : ℕ → ℕ
translate a =
    if leb vxmbmem a && ltb a (vxmbmem + 64) then pxmbmem 0 + (a - vxmbmem) else a + 0x100000

abbrev pub vf_bus : Bus Memory
vf_bus = record { readl = λ a d. (d (translate a), d); writel = λ a v d. update (translate a) v d }

abbrev pub mbx_word : ℕ → Memory → ℕ
mbx_word j d = d (pxmbmem 0 + j * 4)

pub pf_bus-Window : Window ram_bus (pxmbmem 0) mbx_word
pf_bus-Window = record {
  load = λ j d h. refl;
  read_keeps = λ j a d. refl;
  store = λ j v d h. ground arith;
  write_keeps = λ j a v d h ne. ground arith;
}

pub vf_bus-Window : Window vf_bus vxmbmem mbx_word
vf_bus-Window = record {
  load = λ j d h. ap d (ground arith);
  read_keeps = λ j a d. refl;
  store = λ j v d h. ground arith;
  write_keeps = λ j a v d h ne. ground arith;
}

abbrev pub sample_fc : FcInfo
sample_fc = record {
  high_water = replicate 8 100;
  low_water = replicate 8 60;
  pause_time = 0xffff;
  disable_fc_autoneg = true;
  fc_was_autonegged = false;
  current_mode = fc_full;
  requested_mode = fc_full;
}

abbrev pub hw_over : {D : Type 0} → D → Hw D
hw_over d = record {
  mapped = true;
  dev = d;
  mbx = record {
    ops = record {
      read = some pf_side;
      write = some pf_side;
      read_posted = false;
      write_posted = false;
      check_for_msg = some pf_side;
      check_for_ack = some pf_side;
      check_for_rst = some pf_side;
    };
    stats = record { msgs_tx = 0; msgs_rx = 0; acks = 0; reqs = 0; rsts = 0 };
    timeout = 3;
    udelay = 1;
    v2p_mailbox = 0;
    size = 15;
  };
  fc = sample_fc;
  mac = record {
    addr = 0x00 ∷ 0x11 ∷ 0x22 ∷ 0x33 ∷ 0x44 ∷ 0x55 ∷ [];
    mc_filter_type = 0;
    mcft_size = 128;
    vft_size = 128;
    num_rar_entries = 128;
    rar_highwater = 1;
    san_mac_rar_index = 127;
    mta_shadow = replicate 128 0;
    vft_shadow = replicate 128 0;
  };
  addr_ctrl = record {
    num_mc_addrs = 0;
    rar_used_count = 1;
    mta_in_use = 0;
    overflow_promisc = 0;
    user_set_promisc = false;
  };
  media_type = media_fiber;
  subsystem_device_id = 0;
  revision_id = 1;
  eeprom = record {
    kind = eeprom_flash;
    semaphore_delay = 10;
    word_size = 2048;
    sw_region_offset = 0;
  };
  back = record { flags = 0; flags2 = 0; rss_indices = 4 };
}
