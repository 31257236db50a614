-- ===== src/Filter/Added.antt =====
-- What a new filter does to the table and to the hardware: src/txgbe_main.c `txgbe_add_mac_filter`.
use txgbe.Base.{
  ℕ, zero, suc, ◌+◌, ◌%◌, ◌^◌, ◌≤◌, ◌<◌, ◌≡◌, ◌≢◌, ◌∙◌, refl, sym, ap, Bool, Bool-cases, true,
  false, inl, inr, ◌&&◌, not, ◌==◌, if◌then◌else◌, nonzero, bit_and, bit_or, List, length, arith,
}
use mathlib.Core.Path.{subst}
use native.Mathlib.Decide.{ℕ_discrete}
use txgbe.Hw.{Bus}
use txgbe.Rar.Regs.{psr_mac_swc_ad_h_av}
use txgbe.Rar.Table.{set_rar}
use txgbe.Filter.Table.{
  MacAddr, Filters, FilterResult, EtherAddr, index, einval, in_use, entry_at, store_entry,
  unmodified, join_pool, take_entry, program_entry, full_sync_entry, sync_mac_table, add_from,
  add_mac_filter, mac_state_modified,
}
use txgbe.Filter.Sync.{
  IsSynced, unmodified-IsSynced, entry-store_self, entry-store_ne, length-store, sync_idle,
  sync_one,
}
use txgbe.Filter.Outcome.{with_pool, holds, PassedOver, Added}
use txgbe.Filter.Take.{
  pool_bit, join_pool-eq, take_entry-used, take_entry-marked, take_entry-stays, take_entry-addr,
  take_entry-pools, unmodified-addr, unmodified-pools,
}

module _ {D : Type 0} ⦃bus : Bus D⦄ (ether : EtherAddr) (addr : List ℕ) (pool : ℕ)
    (below : pool < 64) (s : Filters D) (fits : s.hw.mac.num_rar_entries ≤ length s.mac_table)
    (synced : (j : ℕ) → j < s.hw.mac.num_rar_entries → IsSynced (entry_at j s)) where
  -- The pool joins entry `i`.
  joined :
      (i : ℕ)
      → i < s.hw.mac.num_rar_entries
      → PassedOver ether addr pool i s
      → in_use (entry_at i s) ≡ true
      → holds ether addr pool (entry_at i s) ≡ true
      → Added ether addr pool s
          (sync_mac_table (store_entry i (join_pool addr pool (entry_at i s)) s)).1
          (index i)
  unfolding Added sync_mac_table store_entry
  joined i lt passed used held =
      let e = entry_at i s in
      let e1 = join_pool addr pool e in
      let s1 = store_entry i e1 s in
      let self = entry-store_self i e1 s (omega arith) in
      let same : e1 ≡ with_pool addr pool e = join_pool-eq addr pool e below in
      let clean : (j : ℕ) → j < s.hw.mac.num_rar_entries → IsSynced (entry_at j s1) = λ j h.
        elim (ℕ_discrete i j) [
          | yes q ↦
              subst (λ (k : ℕ). IsSynced (entry_at k s1)) q
                (subst IsSynced (sym (self ∙ same)) (synced i lt))
          | no ne ↦ subst IsSynced (sym (entry-store_ne i j e1 s ne)) (synced j h)
        ] in
      let idle = sync_idle s.hw.mac.num_rar_entries 0 s1 (λ k lo hi. clean k (omega arith)) in
      let all : Added ether addr pool s s1 (index i) = (
        lt,
        passed,
        inl (record { used = used; held = held; entry = self ∙ same; hardware = refl }),
        λ j ne. entry-store_ne i j e1 s ne,
        clean,
      ) in
      subst (λ (t : Unit {0} × Filters D). Added ether addr pool s t.1 (index i)) (sym idle) all

  program_taken :
      (i : ℕ) (e : MacAddr)
      → program_entry i (take_entry addr pool e) s.hw
        ≡ (set_rar i addr (bit_or e.pools (2 ^ pool)) psr_mac_swc_ad_h_av s.hw).1
  unfolding program_entry
  program_taken i e =
      let e1 = take_entry addr pool e in
      let used = take_entry-used addr pool e in
      let call : program_entry i e1 s.hw ≡ (set_rar i e1.addr e1.pools psr_mac_swc_ad_h_av s.hw).1 =
        ground (arith, used) in
      call
      ∙ ap (λ (t : List ℕ). (set_rar i t e1.pools psr_mac_swc_ad_h_av s.hw).1)
          (take_entry-addr addr pool e)
      ∙ ap (λ (t : ℕ). (set_rar i addr t psr_mac_swc_ad_h_av s.hw).1)
          (take_entry-pools addr pool e below)

  -- The entry is written to the hardware and its mark is cleared.
  written :
      (i : ℕ)
      → i < s.hw.mac.num_rar_entries
      → PassedOver ether addr pool i s
      → in_use (entry_at i s) ≡ false
      → Added ether addr pool s
          (full_sync_entry i (store_entry i (take_entry addr pool (entry_at i s)) s)).1
          (index i)
  unfolding Added full_sync_entry store_entry
  written i lt passed free =
      let e = entry_at i s in
      let e1 = take_entry addr pool e in
      let s1 = store_entry i e1 s in
      let first : entry_at i s1 ≡ e1 = entry-store_self i e1 s (omega arith) in
      let e2 = unmodified (entry_at i s1) in
      let s2 : Filters D = record s1 { hw = program_entry i (entry_at i s1) s1.hw } in
      let s3 = store_entry i e2 s2 in
      let last : entry_at i s3 ≡ unmodified e1 =
        entry-store_self i e2 s2 (omega (arith, length-store i e1 s)) ∙ ap unmodified first in
      let others : (j : ℕ) → i ≢ j → entry_at j s3 ≡ entry_at j s =
        λ j ne. entry-store_ne i j e2 s2 ne ∙ entry-store_ne i j e1 s ne in
      (
        lt,
        passed,
        inr (record {
          free = free;
          used = ap in_use last ∙ take_entry-stays addr pool e;
          address =
              ap (λ (t : MacAddr). t.addr) last ∙ unmodified-addr e1 ∙ take_entry-addr addr pool e;
          pools =
              ap (λ (t : MacAddr). t.pools) last
              ∙ unmodified-pools e1
              ∙ take_entry-pools addr pool e below;
          hardware = ap (λ (t : MacAddr). program_entry i t s.hw) first ∙ program_taken i e;
        }),
        others,
        λ j h. elim (ℕ_discrete i j) [
          | yes q ↦
              subst (λ (k : ℕ). IsSynced (entry_at k s3)) q
                (subst IsSynced (sym last) (unmodified-IsSynced e1))
          | no ne ↦ subst IsSynced (sym (others j ne)) (synced j h)
        ],
      )

  -- The free entry `i` is taken.
  taken :
      (i : ℕ)
      → i < s.hw.mac.num_rar_entries
      → PassedOver ether addr pool i s
      → in_use (entry_at i s) ≡ false
      → Added ether addr pool s
          (sync_mac_table (store_entry i (take_entry addr pool (entry_at i s)) s)).1
          (index i)
  unfolding Added sync_mac_table store_entry
  taken i lt passed free =
      let e = entry_at i s in
      let e1 = take_entry addr pool e in
      let s1 = store_entry i e1 s in
      let n = s.hw.mac.num_rar_entries in
      let self : entry_at i s1 ≡ e1 = entry-store_self i e1 s (omega arith) in
      let marked =
        ap (λ (t : MacAddr). nonzero (bit_and t.state mac_state_modified)) self
        ∙ take_entry-marked addr pool e in
      let one = sync_one n 0 i s1 (omega arith) (omega arith) marked (λ k lo hi ne.
        subst IsSynced (sym (entry-store_ne i k e1 s ne)) (synced k (omega arith))) in
      subst (λ (t : Unit {0} × Filters D). Added ether addr pool s t.1 (index i)) (sym one)
        (written i lt passed free)

  -- The rounds from `i` on, when the addition has passed over the entries before it.
  add_from-Added :
      (n i : ℕ)
      → i + n ≡ s.hw.mac.num_rar_entries
      → PassedOver ether addr pool i s
      → let after = add_from ether addr pool n i s in Added ether addr pool s after.1 after.0
  unfolding add_from Added
  add_from-Added zero i ends passed = (λ j h. passed j (omega arith), refl)
  add_from-Added (suc n) i ends passed =
      let e = entry_at i s in
      let lt : i < s.hw.mac.num_rar_entries = omega arith in
      let rest = add_from ether addr pool n (i + 1) s in
      let after = λ (t : MacAddr). (sync_mac_table (store_entry i t s)).1 in
      let Goal : FilterResult × Filters D → Type 0 = λ t. Added ether addr pool s t.1 t.0 in
      let choice : Bool → Bool → FilterResult × Filters D = λ u h.
        if u
        then (if h then (index i, after (join_pool addr pool e)) else rest)
        else (index i, after (take_entry addr pool e)) in
      let test = ether.ether_addr_equal addr e.addr && not (e.pools == 2 ^ pool % 2 ^ 64) in
      let same : test ≡ holds ether addr pool e =
        ap (λ (m : ℕ). ether.ether_addr_equal addr e.addr && not (e.pools == m))
          (pool_bit pool below) in
      elim (Bool-cases (in_use e)) [
        | inl u ↦
            subst (λ (b : Bool). Goal (choice b test)) (sym u)
              (elim (Bool-cases (holds ether addr pool e)) [
                | inl h ↦
                    subst (λ (b : Bool). Goal (choice true b)) (sym (same ∙ h))
                      (joined i lt passed u h)
                | inr h ↦
                    subst (λ (b : Bool). Goal (choice true b)) (sym (same ∙ h))
                      (add_from-Added n (i + 1) (omega arith) (λ j below_next.
                        elim (ℕ_discrete i j) [
                          | yes q ↦
                              subst
                                (λ (k : ℕ).
                                  (in_use (entry_at k s) ≡ true)
                                  × (holds ether addr pool (entry_at k s) ≡ false))
                                q (u, h)
                          | no ne ↦ passed j (omega arith)
                        ]))
              ])
        | inr u ↦ subst (λ (b : Bool). Goal (choice b test)) (sym u) (taken i lt passed u)
      ]

  -- When the pool is below 64, the table has an entry for every receive address and none of those is
  -- marked as modified: an addition that gives an index passed over the entries before it, each in
  -- use and not for the address with other pools; the entry at the index is in range, and either
  -- was in use for the address with other pools, and then the pool joins them in the table while
  -- the hardware is left as it was; or was not in use, and then is in use for the address, with
  -- the pool added to those it had, and `txgbe_set_rar` has written it to the hardware; every
  -- other entry is as it was and none is marked. One that gives -EINVAL was asked for the zero
  -- address, and one that gives -ENOMEM passed over every entry; both leave the adapter as it was.
  pub add_mac_filter-Added :
      let after = add_mac_filter ether addr pool s in Added ether addr pool s after.1 after.0
  unfolding add_mac_filter Added
  add_mac_filter-Added =
      let Goal : FilterResult × Filters D → Type 0 = λ t. Added ether addr pool s t.1 t.0 in
      let loop = add_from ether addr pool s.hw.mac.num_rar_entries 0 s in
      elim (Bool-cases (ether.is_zero_ether_addr addr)) [
        | inl z ↦ subst (λ (b : Bool). Goal (if b then (einval, s) else loop)) (sym z) (z, refl)
        | inr z ↦
            subst (λ (b : Bool). Goal (if b then (einval, s) else loop)) (sym z)
              (add_from-Added s.hw.mac.num_rar_entries 0 (omega arith)
                (λ j h. absurd (omega arith)))
      ]
