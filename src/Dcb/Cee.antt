-- ===== src/Dcb/Cee.antt =====
-- Credits for the CEE case, src/txgbe_dcb.c: `txgbe_dcb_calculate_tc_credits_cee`, which stores
-- its results in the configuration.
use txgbe.Base.{
  ℕ, ◌+◌, ◌*◌, ◌/◌, ◌%◌, ◌^◌, min, ltb, if◌then◌else◌, ◌&&◌, ◌==◌, List, get_or, Option, none, some,
}
use mathlib.Core.List.{map}
use txgbe.Hw.{Status, success, err_config}
use txgbe.Dcb.Config.{
  TcPath, TcConfig, DcbConfig, Direction, tx_config, rx_config, path, bw_percentage,
  max_credit_refill, max_credit,
}
use txgbe.Dcb.Credits.{min_credit_of, smallest}

-- `(bwg_percent * bw_percentage[direction][bwg_id]) / 100`, a u16. A group beyond the array reads as 0
-- here; C leaves it undefined.
unfoldable pub link_percentage : List ℕ → TcPath → ℕ
link_percentage bw p = p.bwg_percent * get_or bw p.bwg_id 0 / 100 % 2 ^ 16

-- The percentage used for credits: at least 1 for a class with any share of its group.
unfoldable pub credit_percentage : List ℕ → TcPath → ℕ
credit_percentage bw p =
    if ltb 0 p.bwg_percent && (link_percentage bw p == 0) then 1 else link_percentage bw p

unfoldable pub credit_refill : ℕ → ℕ → ℕ → ℕ
credit_refill min_credit multiplier percent =
    let refill = min (percent * multiplier % 2 ^ 32) max_credit_refill in
    if ltb refill min_credit then min_credit else refill

unfoldable pub credit_max : ℕ → ℕ → ℕ
credit_max min_credit percent =
    let credits = percent * max_credit / 100 in
    if ltb credits min_credit then min_credit else credits

-- The stores to `p`.
unfoldable pub fill_path : List ℕ → ℕ → ℕ → TcPath → TcPath
fill_path bw min_credit multiplier p =
    let percent = credit_percentage bw p in
    record p {
      link_percent = percent % 2 ^ 8;
      data_credits_refill = credit_refill min_credit multiplier percent % 2 ^ 16;
      data_credits_max = credit_max min_credit percent % 2 ^ 16;
    }

-- The body of the second loop.
unfoldable pub fill_tc : Direction → List ℕ → ℕ → ℕ → TcConfig → TcConfig
fill_tc tx_config bw min_credit multiplier tc = record tc {
  tx_path = fill_path bw min_credit multiplier tc.tx_path;
  desc_credits_max = credit_max min_credit (credit_percentage bw tc.tx_path) % 2 ^ 16;
}
fill_tc rx_config bw min_credit multiplier tc = record tc {
  rx_path = fill_path bw min_credit multiplier tc.rx_path;
}

unfoldable pub cee_multiplier : Direction → DcbConfig → ℕ → ℕ
cee_multiplier direction cfg max_frame_size =
    min_credit_of max_frame_size
      / smallest 100 (
          map (λ tc. link_percentage (bw_percentage direction cfg) (path direction tc))
            cfg.tc_config)
    + 1

unfoldable pub calculate_tc_credits_cee :
    Option DcbConfig → ℕ → Direction → Status × Option DcbConfig
calculate_tc_credits_cee none max_frame_size direction = (err_config, none)
calculate_tc_credits_cee (some cfg) max_frame_size direction =
    let min_credit = min_credit_of max_frame_size in
    let multiplier = cee_multiplier direction cfg max_frame_size in
    (
      success,
      some (record cfg {
        tc_config =
            map (fill_tc direction (bw_percentage direction cfg) min_credit multiplier)
              cfg.tc_config;
      }),
    )
