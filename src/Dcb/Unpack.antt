-- ===== src/Dcb/Unpack.antt =====
-- Unpacking of the CEE configuration, src/txgbe_dcb.c: `txgbe_dcb_unpack_pfc_cee` to
-- `txgbe_dcb_unpack_map_cee`.
use txgbe.Base.{
  ℕ, zero, suc, ◌+◌, ◌-◌, ◌%◌, ◌^◌, bit_and, bit_or, nonzero, if◌then◌else◌, Bool, true, false,
  List, [], ◌∷◌, get_or,
}
use mathlib.Core.List.{map}
use txgbe.Dcb.Config.{TcPath, TcConfig, DcbConfig, Direction, Tsa, tsa_ets, Pfc, pfc_disabled, path}

abbrev pub is_disabled : Pfc → Bool
is_disabled pfc_disabled = true
is_disabled _ = false

-- A class of all zeros, what an index beyond the arrays reads here.
abbrev pub no_path : TcPath
no_path = record {
  bwg_id = 0;
  bwg_percent = 0;
  link_percent = 0;
  up_to_tc_bitmap = 0;
  data_credits_refill = 0;
  data_credits_max = 0;
  tsa = tsa_ets;
}

abbrev pub no_tc : TcConfig
no_tc = record { tx_path = no_path; rx_path = no_path; pfc = pfc_disabled; desc_credits_max = 0 }

-- The loop over the priorities, with those of `map` from `up` on left.
unfoldable pub pfc_loop : List TcConfig → List ℕ → ℕ → ℕ → ℕ
pfc_loop tcs [] up pfc_up = pfc_up
pfc_loop tcs (tc ∷ rest) up pfc_up =
    pfc_loop tcs rest (up + 1)
      (if is_disabled (get_or tcs tc no_tc).pfc then pfc_up else bit_or pfc_up (2 ^ up))

unfoldable pub unpack_pfc_cee : DcbConfig → List ℕ → ℕ
unfolding pfc_loop
unpack_pfc_cee cfg prio_map = pfc_loop cfg.tc_config prio_map 0 0

unfoldable pub unpack_refill_cee : DcbConfig → Direction → List ℕ
unpack_refill_cee cfg direction = map (λ tc. (path direction tc).data_credits_refill) cfg.tc_config

unfoldable pub unpack_max_cee : DcbConfig → List ℕ
unpack_max_cee cfg = map (λ tc. tc.desc_credits_max) cfg.tc_config

unfoldable pub unpack_bwgid_cee : DcbConfig → Direction → List ℕ
unpack_bwgid_cee cfg direction = map (λ tc. (path direction tc).bwg_id) cfg.tc_config

unfoldable pub unpack_tsa_cee : DcbConfig → Direction → List Tsa
unpack_tsa_cee cfg direction = map (λ tc. (path direction tc).tsa) cfg.tc_config

-- Class `tc` takes the priorities of `prio_mask`.
abbrev pub serves : DcbConfig → Direction → ℕ → ℕ → Bool
serves cfg direction prio_mask tc =
    nonzero (bit_and prio_mask (path direction (get_or cfg.tc_config tc no_tc)).up_to_tc_bitmap)

-- `for (; tc; tc--) if (...) break;`
unfoldable pub search_tc : DcbConfig → Direction → ℕ → ℕ → ℕ
search_tc cfg direction prio_mask zero = zero
search_tc cfg direction prio_mask (suc tc) =
    let rest = search_tc cfg direction prio_mask tc in
    if serves cfg direction prio_mask (suc tc) then suc tc else rest

-- `prio_mask` is a u8. `tc--` in the loop's head runs only where `pg_tcs` is not 0.
unfoldable pub get_tc_from_up : DcbConfig → Direction → ℕ → ℕ
unfolding search_tc
get_tc_from_up cfg direction up =
    if nonzero cfg.pg_tcs then search_tc cfg direction (2 ^ up % 2 ^ 8) (cfg.pg_tcs - 1) else 0

unfoldable pub unpack_map_cee : DcbConfig → Direction → List ℕ
unpack_map_cee cfg direction =
    map (get_tc_from_up cfg direction) (0 ∷ 1 ∷ 2 ∷ 3 ∷ 4 ∷ 5 ∷ 6 ∷ 7 ∷ [])
