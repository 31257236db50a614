-- ===== src/Dcb/PfcHw.antt =====
-- Priority flow control registers, src/txgbe_dcb.c: `txgbe_dcb_config_pfc`.
use txgbe.Base.{
  ℕ, suc, ◌+◌, ◌-◌, ◌*◌, ◌/◌, ◌^◌, bit_and, bit_or, ltb, nonzero, ◌==◌, ◌&&◌, ◌||◌, Bool, false,
  if◌then◌else◌, List, [], ◌∷◌, get_or, St, pure, ◌>>=◌, ◌>>◌, get, for_range,
}
use txgbe.Hw.{Hw, Bus, Status, err_param}
use txgbe.Reg.{rd32, wr32, shl32}
use txgbe.Dcb.Config.{max_traffic_class}

abbrev pub rdb_rfcv : ℕ → ℕ
rdb_rfcv i = 0x19200 + i * 4

abbrev pub rdb_rfcl : ℕ → ℕ
rdb_rfcl i = 0x19220 + i * 4

abbrev pub rdb_rfch : ℕ → ℕ
rdb_rfch i = 0x19260 + i * 4

abbrev pub rdb_rfcrt : ℕ
rdb_rfcrt = 0x192a0

abbrev pub rdb_rfcc : ℕ
rdb_rfcc = 0x192a4

abbrev pub rdb_pb_sz : ℕ → ℕ
rdb_pb_sz i = 0x19020 + i * 4

abbrev pub mac_rx_flow_ctrl : ℕ
mac_rx_flow_ctrl = 0x11090

abbrev pub rfcc_rfce_priority : ℕ
rfcc_rfce_priority = 0x10

abbrev pub mac_rx_flow_ctrl_pfce : ℕ
mac_rx_flow_ctrl_pfce = 0x100

abbrev pub rfcl_xone : ℕ
rfcl_xone = 0x80000000

abbrev pub rfch_xoffe : ℕ
rfch_xoffe = 0x80000000

-- `for (j = 0; ...) if ((map[j] == i) && (pfc_en & (1 << j))) { enabled = 1; break; }`, from the
-- priority `j` that the rest of the map begins with.
unfoldable pub enabled : ℕ → ℕ → List ℕ → ℕ → Bool
enabled pfc_en i [] j = false
enabled pfc_en i (tc ∷ prio_map) j =
    (tc == i && nonzero (bit_and pfc_en (2 ^ j))) || enabled pfc_en i prio_map (j + 1)

-- The largest class of the map.
unfoldable pub max_tc : List ℕ → ℕ → ℕ
max_tc [] m = m
max_tc (tc ∷ prio_map) m = max_tc prio_map (if ltb m tc then tc else m)

module _ {D : Type 0} ⦃bus : Bus D⦄ where
  -- The body of the loop over the classes up to `max_tc`.
  unfoldable pub pfc_thresholds : ℕ → List ℕ → ℕ → St (Hw D) (Unit {0})
  pfc_thresholds pfc_en prio_map i = do
    hw ← get
    if enabled pfc_en i prio_map 0
        then (do
          let fcrtl = bit_or (shl32 (get_or hw.fc.low_water i 0) 10) rfcl_xone
          wr32 (rdb_rfch i) fcrtl
          wr32 (rdb_rfch i) (bit_or (shl32 (get_or hw.fc.high_water i 0) 10) rfch_xoffe))
        else (do reg ← rd32 (rdb_pb_sz i); wr32 (rdb_rfcl i) 0; wr32 (rdb_rfch i) reg)

  unfoldable pub clear_thresholds : ℕ → St (Hw D) (Unit {0})
  clear_thresholds i = do wr32 (rdb_rfcl i) 0; wr32 (rdb_rfch i) 0

  unfoldable pub config_pfc : ℕ → List ℕ → St (Hw D) Status
  config_pfc pfc_en prio_map = do
    wr32 rdb_rfcc rfcc_rfce_priority
    wr32 mac_rx_flow_ctrl (if nonzero pfc_en then bit_or mac_rx_flow_ctrl_pfce 1 else 0)
    let classes = suc (max_tc prio_map 0)
    for_range classes 0 (pfc_thresholds pfc_en prio_map)
    for_range (max_traffic_class - classes) classes clear_thresholds
    hw ← get
    let pause = hw.fc.pause_time
    for_range (max_traffic_class / 2) 0 (λ i. wr32 (rdb_rfcv i) (bit_or pause (shl32 pause 16)))
    wr32 rdb_rfcrt (pause / 2)
    pure err_param
