-- ===== src/Hw.antt =====
-- The data model of src/txgbe_type.h: the status codes, `struct txgbe_hw` with the parts of it that
-- the modelled code reads or writes, and the device behind the register window.
use txgbe.Base.{ℕ, Bool, true, false, Option, List}

-- The return codes that the modelled code gives; `not_implemented` is what TCALL gives for a null function pointer.
pub data Status : Type 0 where
  success : Status
  err_eeprom_checksum err_config err_param err_invalid_argument : Status
  err_invalid_link_settings err_fc_not_negotiated err_no_space : Status
  err_swfw_sync err_timeout err_mbx err_mng_access_failed : Status
  err_invalid_mac_addr err_eeprom err_host_interface_command err_fdir_cmd_incomplete : Status
  not_implemented : Status

-- `== 0`, the test for success.
abbrev pub is_success : Status → Bool
is_success success = true
is_success _ = false

-- The device seen through `readl` and `writel`, at an offset from the start of the window. A read
-- may change the device, since some bits clear when they are read and other agents act meanwhile.
pub record Bus (D : Type 0) : Type 0 where
  pub readl : ℕ → D → ℕ × D
  pub writel : ℕ → ℕ → D → D

-- `struct txgbe_mbx_stats`: u32 counters.
pub record MbxStats : Type 0 where
  pub msgs_tx : ℕ
  pub msgs_rx : ℕ
  pub acks : ℕ
  pub reqs : ℕ
  pub rsts : ℕ

-- Which of the two families of mailbox routines a function pointer names.
pub data Side : Type 0 where
  vf_side pf_side : Side

-- `struct txgbe_mbx_operations`: a null pointer is `none`.
pub record MbxOps : Type 0 where
  pub read : Option Side
  pub write : Option Side
  pub read_posted : Bool
  pub write_posted : Bool
  pub check_for_msg : Option Side
  pub check_for_ack : Option Side
  pub check_for_rst : Option Side

-- `struct txgbe_mbx_info`.
pub record MbxInfo : Type 0 where
  pub ops : MbxOps
  pub stats : MbxStats
  pub timeout : ℕ
  pub udelay : ℕ
  pub v2p_mailbox : ℕ
  pub size : ℕ

-- `enum txgbe_fc_mode`.
pub data FcMode : Type 0 where
  fc_none fc_rx_pause fc_tx_pause fc_full fc_default : FcMode

-- `struct txgbe_fc_info`.
pub record FcInfo : Type 0 where
  pub high_water : List ℕ
  pub low_water : List ℕ
  pub pause_time : ℕ
  pub disable_fc_autoneg : Bool
  pub fc_was_autonegged : Bool
  pub current_mode : FcMode
  pub requested_mode : FcMode

-- The fields of `struct txgbe_mac_info` that hold the filter tables and the address, as six bytes.
pub record MacInfo : Type 0 where
  pub addr : List ℕ
  pub mc_filter_type : ℕ
  pub mcft_size : ℕ
  pub vft_size : ℕ
  pub num_rar_entries : ℕ
  pub rar_highwater : ℕ
  pub san_mac_rar_index : ℕ
  pub mta_shadow : List ℕ
  pub vft_shadow : List ℕ

-- `enum txgbe_media_type`.
pub data MediaType : Type 0 where
  media_unknown media_fiber media_copper media_backplane media_virtual : MediaType

-- `struct txgbe_addr_filter_info`: u32 counters and a flag.
pub record AddrFilterInfo : Type 0 where
  pub num_mc_addrs : ℕ
  pub rar_used_count : ℕ
  pub mta_in_use : ℕ
  pub overflow_promisc : ℕ
  pub user_set_promisc : Bool

-- `enum txgbe_eeprom_type`.
pub data EepromType : Type 0 where
  eeprom_uninitialized eeprom_spi eeprom_flash eeprom_none : EepromType

-- The fields of `struct txgbe_eeprom_info` that its set-up writes.
pub record EepromInfo : Type 0 where
  pub kind : EepromType
  pub semaphore_delay : ℕ
  pub word_size : ℕ
  pub sw_region_offset : ℕ

-- What `struct txgbe_adapter` behind `hw->back` lends to the modelled code: its flags, two u32,
-- and `ring_feature[RING_F_RSS].indices`.
pub record Adapter : Type 0 where
  pub flags : ℕ
  pub flags2 : ℕ
  pub rss_indices : ℕ

-- `struct txgbe_hw`. `mapped` says that `hw_addr` is not null; `media_type` is
-- `phy.media_type`.
pub record Hw (D : Type 0) : Type 0 where
  pub mapped : Bool
  pub dev : D
  pub mbx : MbxInfo
  pub fc : FcInfo
  pub mac : MacInfo
  pub addr_ctrl : AddrFilterInfo
  pub media_type : MediaType
  pub subsystem_device_id : ℕ
  pub revision_id : ℕ
  pub eeprom : EepromInfo
  pub back : Adapter
