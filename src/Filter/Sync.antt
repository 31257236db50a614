-- ===== src/Filter/Sync.antt =====
-- What writing the table of filters to the hardware does: src/txgbe_main.c `txgbe_sync_mac_table`.
use txgbe.Base.{
  ℕ, zero, suc, ◌+◌, ◌*◌, ◌≤◌, ◌<◌, ◌≡◌, ◌≢◌, ◌∙◌, refl, sym, ap, true, bit, bit_and, bit-bit_and,
  bit-le-one, bit_and-two_pow, nonzero, length, get_or-set_self, get_or-set_ne, length-set,
  for_range, arith,
}
use native.Mathlib.Decide.{ℕ_discrete}
use txgbe.Hw.{Bus}
use txgbe.Filter.Table.{
  MacAddr, Filters, no_entry, entry_at, store_entry, unmodified, mac_state_modified,
  full_sync_entry, sync_entry,
}

-- The entry is not marked for the hardware.
abbrev pub IsSynced : MacAddr → Type 0
IsSynced e = bit_and e.state mac_state_modified ≡ 0

pub unmodified-IsSynced : (e : MacAddr) → IsSynced (unmodified e)
unfolding unmodified bit
unmodified-IsSynced e =
    let mask : bit 1 0xfffd ≡ 0 = refl in
    let low : bit 1 (bit_and e.state 0xfffd) ≡ 0 =
      omega (arith, bit-bit_and 1 e.state 0xfffd, mask, bit-le-one 1 e.state) in
    bit_and-two_pow (bit_and e.state 0xfffd) 1 ∙ ap (λ (b : ℕ). b * 2) low

module _ {D : Type 0} where
  pub entry-store_self :
      (i : ℕ) (e : MacAddr) (s : Filters D)
      → i < length s.mac_table
      → entry_at i (store_entry i e s) ≡ e
  unfolding store_entry
  entry-store_self i e s below = get_or-set_self s.mac_table i e no_entry below

  pub entry-store_ne :
      (i j : ℕ) (e : MacAddr) (s : Filters D)
      → i ≢ j
      → entry_at j (store_entry i e s) ≡ entry_at j s
  unfolding store_entry
  entry-store_ne i j e s ne = get_or-set_ne s.mac_table i j e no_entry ne

  pub length-store :
      (i : ℕ) (e : MacAddr) (s : Filters D)
      → length (store_entry i e s).mac_table ≡ length s.mac_table
  unfolding store_entry
  length-store i e s = length-set s.mac_table i e

module _ {D : Type 0} ⦃bus : Bus D⦄ where
  sync_entry_idle : (i : ℕ) (s : Filters D) → IsSynced (entry_at i s) → sync_entry i s ≡ (tt, s)
  unfolding sync_entry
  sync_entry_idle i s clean = ground (arith, clean)

  -- Rounds over entries that are not marked do nothing.
  pub sync_idle :
      (n i : ℕ) (s : Filters D)
      → ((k : ℕ) → i ≤ k → k < i + n → IsSynced (entry_at k s))
      → for_range n i sync_entry s ≡ (tt, s)
  unfolding for_range
  sync_idle zero i s clean = refl
  sync_idle (suc n) i s clean =
      ap (λ (t : Unit {0} × Filters D). for_range n (i + 1) sync_entry t.1)
        (sync_entry_idle i s (clean i (omega arith) (omega arith)))
      ∙ sync_idle n (i + 1) s (λ k lo hi. clean k (omega arith) (omega arith))

  full_sync-entry_ne :
      (i j : ℕ) (s : Filters D) → i ≢ j → entry_at j (full_sync_entry i s).1 ≡ entry_at j s
  unfolding full_sync_entry store_entry
  full_sync-entry_ne i j s ne = get_or-set_ne s.mac_table i j _ no_entry ne

  -- Rounds that meet one marked entry write that one.
  pub sync_one :
      (n i j : ℕ) (s : Filters D)
      → i ≤ j
      → j < i + n
      → nonzero (bit_and (entry_at j s).state mac_state_modified) ≡ true
      → ((k : ℕ) → i ≤ k → k < i + n → j ≢ k → IsSynced (entry_at k s))
      → for_range n i sync_entry s ≡ full_sync_entry j s
  unfolding for_range sync_entry
  sync_one zero i j s from to marked clean = absurd (omega arith)
  sync_one (suc n) i j s from to marked clean = elim (ℕ_discrete j i) [
    | yes e ↦
        let s1 = (full_sync_entry j s).1 in
        let first : sync_entry i s ≡ full_sync_entry j s =
          ap (λ (k : ℕ). sync_entry k s) (sym e) ∙ ground (arith, marked) in
        ap (λ (t : Unit {0} × Filters D). for_range n (i + 1) sync_entry t.1) first
        ∙ sync_idle n (i + 1) s1 (λ k lo hi.
          let apart : j ≢ k = λ q. omega arith in
          ap (λ (t : MacAddr). bit_and t.state mac_state_modified) (full_sync-entry_ne j k s apart)
          ∙ clean k (omega arith) (omega arith) apart)
    | no ne ↦
        ap (λ (t : Unit {0} × Filters D). for_range n (i + 1) sync_entry t.1)
          (sync_entry_idle i s (clean i (omega arith) (omega arith) ne))
        ∙ sync_one n (i + 1) j s (omega arith) (omega arith) marked
            (λ k lo hi. clean k (omega arith) (omega arith))
  ]
