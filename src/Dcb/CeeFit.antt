-- ===== src/Dcb/CeeFit.antt =====
-- What src/txgbe_dcb.c `txgbe_dcb_calculate_tc_credits_cee` guarantees of each traffic class.
use txgbe.Base.{ℕ, ◌*◌, ◌^◌, ◌≤◌, ◌<◌, ◌≡◌, ◌/◌, ◌%◌, min, max, get_or, List}
use txgbe.Dcb.Config.{TcPath, TcConfig, Direction, tx_config, rx_config, max_credit}

-- Fields of u8.
pub record IsBytes (bw : List ℕ) (p : TcPath) : Type 0 where
  pub percent : p.bwg_percent < 256
  pub group : get_or bw p.bwg_id 0 < 256

-- The share of the link in percent: of a class with any share of its group at least 1.
abbrev pub link_share : List ℕ → TcPath → ℕ
link_share bw p = max (min 1 p.bwg_percent) (p.bwg_percent * get_or bw p.bwg_id 0 / 100)

-- The new path against the old one.
pub record PathFits (bw : List ℕ) (min_credit : ℕ) (old new : TcPath) : Type 0 where
  pub link : new.link_percent ≡ link_share bw old % 2 ^ 8
  pub refill_enough : min_credit ≤ new.data_credits_refill
  pub refill_capped : new.data_credits_refill ≤ max 200 min_credit
  pub max_value : new.data_credits_max ≡ max min_credit (link_share bw old * max_credit / 100)
  pub same_group : new.bwg_id ≡ old.bwg_id
  pub same_percent : new.bwg_percent ≡ old.bwg_percent
  pub same_priorities : new.up_to_tc_bitmap ≡ old.up_to_tc_bitmap
  pub same_tsa : new.tsa ≡ old.tsa

-- The new class against the old one, after a run for one direction.
abbrev pub TcFits : Direction → List ℕ → ℕ → TcConfig → TcConfig → Type 0
TcFits tx_config bw min_credit old new =
    PathFits bw min_credit old.tx_path new.tx_path
    × (new.desc_credits_max ≡ new.tx_path.data_credits_max)
    × (new.rx_path ≡ old.rx_path)
    × (new.pfc ≡ old.pfc)
TcFits rx_config bw min_credit old new =
    PathFits bw min_credit old.rx_path new.rx_path
    × (new.desc_credits_max ≡ old.desc_credits_max)
    × (new.tx_path ≡ old.tx_path)
    × (new.pfc ≡ old.pfc)
