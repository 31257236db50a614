-- ===== src/Filter/Take.antt =====
-- The entries that src/txgbe_main.c `txgbe_add_mac_filter` stores.
use txgbe.Base.{
  ℕ, ◌%◌, ◌^◌, ◌≤◌, ◌<◌, ◌≡◌, refl, ap, true, nonzero, bit, bit_and, bit_or, bit-bit_or,
  bit-bit_and, bit-le-one, bit_and-two_pow, List, arith,
}
use native.Mathlib.Nat.{pow-le-pow_right}
use txgbe.Filter.Table.{MacAddr, in_use, unmodified, join_pool, take_entry, mac_state_modified}
use txgbe.Filter.Outcome.{with_pool}

pub pool_bit : (pool : ℕ) → pool < 64 → 2 ^ pool % 2 ^ 64 ≡ 2 ^ pool
pool_bit pool below =
    let small : 2 ^ pool ≤ 2 ^ 63 = pow-le-pow_right (omega arith) {j = 63} (omega arith) in
    omega (arith, small)

pub join_pool-eq :
    (addr : List ℕ) (pool : ℕ) (e : MacAddr)
    → pool < 64
    → join_pool addr pool e ≡ with_pool addr pool e
unfolding join_pool
join_pool-eq addr pool e below =
    ap (λ (m : ℕ). record e { addr = addr; pools = bit_or e.pools m }) (pool_bit pool below)

-- The test of the bit IN_USE, from the bit.
in_use-bit : (e : MacAddr) → bit 2 e.state ≡ 1 → in_use e ≡ true
in_use-bit e h = ground (arith, bit_and-two_pow e.state 2)

pub unmodified-addr : (e : MacAddr) → (unmodified e).addr ≡ e.addr
unfolding unmodified
unmodified-addr e = refl

pub unmodified-pools : (e : MacAddr) → (unmodified e).pools ≡ e.pools
unfolding unmodified
unmodified-pools e = refl

-- A new filter is in use and marked, and stays in use when the mark is cleared.
module _ (addr : List ℕ) (pool : ℕ) (e : MacAddr) where
  pub take_entry-used : in_use (take_entry addr pool e) ≡ true
  unfolding take_entry join_pool bit
  take_entry-used =
      let six : bit 2 6 ≡ 1 = refl in
      in_use-bit (take_entry addr pool e)
        (omega (arith, bit-bit_or 2 e.state 6, six, bit-le-one 2 e.state))

  pub take_entry-marked : nonzero (bit_and (take_entry addr pool e).state mac_state_modified) ≡ true
  unfolding take_entry join_pool bit
  take_entry-marked =
      let six : bit 1 6 ≡ 1 = refl in
      let one : bit 1 (bit_or e.state 6) ≡ 1 =
        omega (arith, bit-bit_or 1 e.state 6, six, bit-le-one 1 e.state) in
      ground (arith, bit_and-two_pow (bit_or e.state 6) 1, one)

  pub take_entry-stays : in_use (unmodified (take_entry addr pool e)) ≡ true
  unfolding take_entry join_pool unmodified bit
  take_entry-stays =
      let six : bit 2 6 ≡ 1 = refl in
      let mask : bit 2 0xfffd ≡ 1 = refl in
      in_use-bit (unmodified (take_entry addr pool e)) (
        omega (
          arith,
          bit-bit_and 2 (bit_or e.state 6) 0xfffd,
          bit-bit_or 2 e.state 6,
          six,
          mask,
          bit-le-one 2 e.state,
        ))

  pub take_entry-addr : (take_entry addr pool e).addr ≡ addr
  unfolding take_entry join_pool
  take_entry-addr = refl

  pub take_entry-pools : pool < 64 → (take_entry addr pool e).pools ≡ bit_or e.pools (2 ^ pool)
  unfolding take_entry join_pool
  take_entry-pools below = ap (bit_or e.pools) (pool_bit pool below)
