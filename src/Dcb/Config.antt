-- ===== src/Dcb/Config.antt =====
-- The configuration of src/txgbe_dcb.h: `struct txgbe_dcb_tc_path`, `txgbe_dcb_tc_config` and the
-- fields of `txgbe_dcb_config` that src/txgbe_dcb.c uses.
use txgbe.Base.{ℕ, ◌*◌, Bool, List}

-- `enum txgbe_dcb_tsa`.
pub data Tsa : Type 0 where
  tsa_ets tsa_group_strict_cee tsa_strict : Tsa

-- `enum txgbe_dcb_pfc`.
pub data Pfc : Type 0 where
  pfc_disabled pfc_enabled pfc_enabled_txonly pfc_enabled_rxonly : Pfc

-- TXGBE_DCB_TX_CONFIG and TXGBE_DCB_RX_CONFIG, the two indices of an array `path[2]`.
pub data Direction : Type 0 where
  tx_config rx_config : Direction

pub record TcPath : Type 0 where
  pub bwg_id : ℕ
  pub bwg_percent : ℕ
  pub link_percent : ℕ
  pub up_to_tc_bitmap : ℕ
  pub data_credits_refill : ℕ
  pub data_credits_max : ℕ
  pub tsa : Tsa

pub record TcConfig : Type 0 where
  pub tx_path : TcPath
  pub rx_path : TcPath
  pub pfc : Pfc
  pub desc_credits_max : ℕ

pub record DcbConfig : Type 0 where
  pub tc_config : List TcConfig
  pub pg_tcs : ℕ
  pub bw_percentage_tx : List ℕ
  pub bw_percentage_rx : List ℕ
  pub pfc_mode_enable : Bool
  pub vt_mode : Bool

-- `path[direction]`, and a store to it.
abbrev pub path : Direction → TcConfig → TcPath
path tx_config tc = tc.tx_path
path rx_config tc = tc.rx_path

abbrev pub set_path : Direction → TcPath → TcConfig → TcConfig
set_path tx_config p tc = record tc { tx_path = p }
set_path rx_config p tc = record tc { rx_path = p }

abbrev pub bw_percentage : Direction → DcbConfig → List ℕ
bw_percentage tx_config cfg = cfg.bw_percentage_tx
bw_percentage rx_config cfg = cfg.bw_percentage_rx

abbrev pub max_traffic_class : ℕ
max_traffic_class = 8

abbrev pub max_user_priority : ℕ
max_user_priority = 8

abbrev pub credit_quantum : ℕ
credit_quantum = 64

abbrev pub max_credit_refill : ℕ
max_credit_refill = 200

abbrev pub max_credit : ℕ
max_credit = 2 * max_credit_refill
