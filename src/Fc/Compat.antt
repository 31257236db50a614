-- ===== src/Fc/Compat.antt =====
-- The two ends of a link that negotiate pause agree: src/txgbe_hw.c `txgbe_negotiate_fc`.
use txgbe.Base.{ℕ, ◌≡◌, ◌≢◌, bit_and, nonzero, Bool, true, not, ◌||◌, arith}
use txgbe.Hw.{Hw, FcMode, success}
use txgbe.Fc.Negotiate.{negotiated_mode, negotiate_fc, mode_value}

-- A mode in which pause frames are sent, and one in which they are obeyed.
abbrev pub sends_pause : FcMode → Bool
sends_pause mode = nonzero (bit_and (mode_value mode) 2)

abbrev pub obeys_pause : FcMode → Bool
obeys_pause mode = nonzero (bit_and (mode_value mode) 1)

negotiated_modes :
    (mine theirs : FcMode) (adv_reg lp_reg sym asm : ℕ)
    → sends_pause (negotiated_mode mine adv_reg lp_reg sym asm sym asm) ≡ true
    → obeys_pause (negotiated_mode theirs lp_reg adv_reg sym asm sym asm) ≡ true
unfolding negotiated_mode
negotiated_modes mine theirs adv_reg lp_reg sym asm = ground arith

-- Two ends that exchange nonzero advertisements whose bits mean the same both succeed, and each of
-- them ends in a mode in which the other obeys the pause frames that it sends, whatever the two
-- ends had asked for.
pub negotiate_fc_agrees :
    {D : Type 0} (adv_reg lp_reg sym asm : ℕ) (hw peer : Hw D)
    → adv_reg ≢ 0
    → lp_reg ≢ 0
    → let ours = negotiate_fc adv_reg lp_reg sym asm sym asm hw in
      let theirs = negotiate_fc lp_reg adv_reg sym asm sym asm peer in
      let mode = ours.1.fc.current_mode in
      let peer_mode = theirs.1.fc.current_mode in
      (ours.0 ≡ success)
      × (theirs.0 ≡ success)
      × ((not (sends_pause mode) || obeys_pause peer_mode) ≡ true)
      × ((not (sends_pause peer_mode) || obeys_pause mode) ≡ true)
unfolding negotiate_fc
negotiate_fc_agrees adv_reg lp_reg sym asm hw peer ne ne' =
    let mine = hw.fc.requested_mode in
    let other = peer.fc.requested_mode in
    (
      ground arith,
      ground arith,
      ground (arith, negotiated_modes mine other adv_reg lp_reg sym asm),
      ground (arith, negotiated_modes other mine lp_reg adv_reg sym asm),
    )
