-- ===== src/Base/Loop.antt =====
-- Counted loops over a state, and their two rules.
use Prim.Native.Nat.{ℕ, zero, suc, ◌+◌, ◌≤◌, ◌<◌}
use mathlib.Core.Path.{◌≡◌, refl, sym, ap, subst, ◌∙◌}
use native.Mathlib.Decide.{ℕ_discrete}
use native.Mathlib.Omega.{arith}
use txgbe.Base.State.{St, pure, ◌>>◌}

module _ {S : Type 0} where
  -- `for (k = i; k < i + n; k++) body(k);`
  unfoldable pub for_range : ℕ → ℕ → (ℕ → St S (Unit {0})) → St S (Unit {0})
  for_range zero i body = pure tt
  for_range (suc n) i body = body i >> for_range n (i + 1) body

  -- What every round keeps, the loop keeps.
  pub for_range_inv :
      (P : S → Type 0) (body : ℕ → St S (Unit {0})) (n i : ℕ)
      → ((k : ℕ) → i ≤ k → k < i + n → (s : S) → P s → P (body k s).1)
      → (s : S) → P s
      → P (for_range n i body s).1
  unfolding for_range
  for_range_inv P body zero i keep s p = p
  for_range_inv P body (suc n) i keep s p =
      for_range_inv P body n (i + 1) (λ k a b. keep k (omega arith) (omega arith)) (body i s).1
        (keep i (omega arith) (omega arith) s p)

  -- What round `j` establishes and the later rounds keep holds after the loop.
  pub for_range_at :
      (P Q : S → Type 0) (body : ℕ → St S (Unit {0})) (n i j : ℕ)
      → i ≤ j
      → j < i + n
      → ((k : ℕ) → i ≤ k → k < i + n → (s : S) → P s → P (body k s).1)
      → ((s : S) → P s → Q (body j s).1)
      → ((k : ℕ) → j < k → k < i + n → (s : S) → P s → Q s → Q (body k s).1)
      → (s : S) → P s
      → Q (for_range n i body s).1
  unfolding for_range
  for_range_at P Q body zero i j from to keep reach stay s p = absurd (omega arith)
  for_range_at P Q body (suc n) i j from to keep reach stay s p = elim (ℕ_discrete i j) [
    | yes e ↦
        (for_range_inv (λ t. P t × Q t) body n (i + 1)
          (λ k a b t (pt, qt).
            (keep k (omega arith) (omega arith) t pt, stay k (omega arith) (omega arith) t pt qt))
          (body i s).1
          (
            keep i (omega arith) (omega arith) s p,
            subst (λ (m : ℕ). Q (body m s).1) (sym e) (reach s p),
          )).1
    | no ne ↦
        for_range_at P Q body n (i + 1) j (omega arith) (omega arith)
          (λ k a b. keep k (omega arith) (omega arith)) reach (λ k a b. stay k a (omega arith))
          (body i s).1 (keep i (omega arith) (omega arith) s p)
  ]

  -- The index of a loop shifted by a constant.
  pub for_range_shift :
      (c n i : ℕ) (body : ℕ → St S (Unit {0})) (s : S)
      → for_range n i (λ k. body (c + k)) s ≡ for_range n (c + i) body s
  unfolding for_range
  for_range_shift c zero i body s = refl
  for_range_shift c (suc n) i body s =
      let e : c + (i + 1) ≡ c + i + 1 = omega arith in
      for_range_shift c n (i + 1) body (body (c + i) s).1
      ∙ ap (λ (j : ℕ). for_range n j body (body (c + i) s).1) e
