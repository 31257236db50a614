-- ===== src/Mbx/Poll.antt =====
-- What the polling loops of src/txgbe_mbx.c promise, whatever the device does between two checks.
use txgbe.Base.{
  ℕ, zero, suc, ◌-◌, ◌<◌, ◌≡◌, ◌≢◌, refl, ap, ◌∙◌, Option, some, St, arith, ◌⊎◌, inl, inr,
}
use txgbe.Hw.{Hw, Bus, Side, Status, success, err_mbx}
use txgbe.Mbx.Stats.{if_ok}
use txgbe.Mbx.Ops.{check_for_msg, poll, poll_if_set, poll_for_msg, countdown_status}

pub Status-cases : (r : Status) → (r ≡ success) ⊎ (r ≢ success)
Status-cases success = inl refl
Status-cases _ = inr (λ e. cc)

module _ {D : Type 0} (check : St (Hw D) Status) where
  -- The state after `k` checks, and what the next one says.
  abbrev pub after_checks : ℕ → Hw D → Hw D
  after_checks zero hw = hw
  after_checks (suc k) hw = after_checks k (check hw).1

  abbrev pub check_at : ℕ → Hw D → Status
  check_at k hw = (check (after_checks k hw)).0

pub if_ok-success :
    {A : Type 0} (r : Status) (f : Status → A) (a : A) → r ≡ success → if_ok r f a ≡ a
if_ok-success success f a h = refl
if_ok-success _ f a h = cc

pub if_ok-failure :
    {A : Type 0} (r : Status) (f : Status → A) (a : A) → r ≢ success → if_ok r f a ≡ f r
if_ok-failure success f a h = absurd (h refl)
if_ok-failure _ f a h = refl

module _ {D : Type 0} ⦃bus : Bus D⦄ (check : St (Hw D) Status) where
  poll_step_success :
      (n : ℕ) (hw : Hw D) → (check hw).0 ≡ success → poll check (suc n) hw ≡ (suc n, (check hw).1)
  unfolding poll
  poll_step_success n hw e = rw e refl

  poll_step_failure :
      (n : ℕ) (hw : Hw D)
      → (check hw).0 ≢ success
      → poll check (suc n) hw ≡ poll check n (check hw).1
  unfolding poll
  poll_step_failure n hw e =
      ap (λ (m : St (Hw D) ℕ). m (check hw).1) (if_ok-failure (check hw).0 _ _ e)

  -- The loop stops at the first check that succeeds.
  pub poll_found :
      (k n : ℕ) (hw : Hw D)
      → k < n
      → ((j : ℕ) → j < k → check_at check j hw ≢ success)
      → check_at check k hw ≡ success
      → poll check n hw ≡ (n - k, after_checks check (suc k) hw)
  poll_found k zero hw h no_earlier found = absurd (omega arith)
  poll_found zero (suc n) hw h no_earlier found =
      poll_step_success n hw found ∙ ap (λ (m : ℕ). (m, (check hw).1)) (omega arith)
  poll_found (suc k) (suc n) hw h no_earlier found =
      poll_step_failure n hw (no_earlier 0 (omega arith))
      ∙ poll_found k n (check hw).1 (omega arith) (λ j p. no_earlier (suc j) (omega arith)) found
      ∙ ap (λ (m : ℕ). (m, after_checks check (suc (suc k)) hw)) (omega arith)

  -- The loop makes all its checks when none succeeds.
  pub poll_timeout :
      (n : ℕ) (hw : Hw D)
      → ((j : ℕ) → j < n → check_at check j hw ≢ success)
      → poll check n hw ≡ (0, after_checks check n hw)
  unfolding poll
  poll_timeout zero hw none_found = refl
  poll_timeout (suc n) hw none_found =
      poll_step_failure n hw (none_found 0 (omega arith))
      ∙ poll_timeout n (check hw).1 (λ j p. none_found (suc j) (omega arith))

  -- Which of the first `n` checks is the first to succeed, if one does.
  pub first_success :
      (n : ℕ) (hw : Hw D)
      → ((k : ℕ) × (k < n)
          × ((j : ℕ) → j < k → check_at check j hw ≢ success)
          × (check_at check k hw ≡ success))
        ⊎ ((j : ℕ) → j < n → check_at check j hw ≢ success)
  first_success zero hw = inr (λ j p. absurd (omega arith))
  first_success (suc n) hw = elim (Status-cases (check hw).0) [
    | inl e ↦ inl (0, omega arith, λ j p. absurd (omega arith), e)
    | inr ne ↦ elim (first_success n (check hw).1) [
      | inl (k, p, before, found) ↦ inl (suc k, omega arith, shift ne k before, found)
      | inr none_found ↦ inr (shift ne n none_found)
    ]
  ]
    where
      shift :
          (check hw).0 ≢ success
          → (m : ℕ) → ((j : ℕ) → j < m → check_at check j (check hw).1 ≢ success)
          → (j : ℕ) → j < suc m
          → check_at check j hw ≢ success
      shift ne m h zero p = ne
      shift ne m h (suc j) p = h j (omega arith)

abbrev pub finish : {D : Type 0} → ℕ × Hw D → Status × Hw D
finish r = (countdown_status r.0, r.1)

pub finish_found : {D : Type 0} (k n : ℕ) (hw : Hw D) → k < n → finish (n - k, hw) ≡ (success, hw)
finish_found k n hw p = ground arith

module _ {D : Type 0} ⦃bus : Bus D⦄ where
  pub poll_if_set-some :
      (o : Option Side) {side : Side} (check : St (Hw D) Status) (n : ℕ)
      → o ≡ some side
      → poll_if_set o check n ≡ poll check n
  poll_if_set-some o check n e = rw e

  module _ (mbx_id : ℕ) {side : Side} (hw : Hw D) where
    -- `txgbe_poll_for_msg`, with its check set: either some check within the first `timeout` ones
    -- is the first to succeed, and the call returns success having made no further check; or none
    -- of them succeeds, and the call returns TXGBE_ERR_MBX after exactly `timeout` checks.
    pub poll_for_msg_lem :
        hw.mbx.ops.check_for_msg ≡ some side
        → ((k : ℕ) × (k < hw.mbx.timeout)
            × ((j : ℕ) → j < k → check_at (check_for_msg mbx_id) j hw ≢ success)
            × (check_at (check_for_msg mbx_id) k hw ≡ success)
            × (poll_for_msg mbx_id hw ≡ (success, after_checks (check_for_msg mbx_id) (suc k) hw)))
          ⊎ (((j : ℕ) → j < hw.mbx.timeout → check_at (check_for_msg mbx_id) j hw ≢ success)
              × (poll_for_msg mbx_id hw
                  ≡ (err_mbx, after_checks (check_for_msg mbx_id) hw.mbx.timeout hw)))
    unfolding poll_for_msg
    poll_for_msg_lem set =
        let enter =
          ap (λ (m : St (Hw D) ℕ). finish (m hw))
            (poll_if_set-some hw.mbx.ops.check_for_msg (check_for_msg mbx_id) hw.mbx.timeout set) in
        elim (first_success (check_for_msg mbx_id) hw.mbx.timeout hw) [
          | inl (k, p, before, found) ↦ inl (
            k,
            p,
            before,
            found,
            enter
                ∙ ap finish (poll_found (check_for_msg mbx_id) k hw.mbx.timeout hw p before found)
                ∙ finish_found k hw.mbx.timeout _ p,
          )
          | inr none_found ↦ inr (
            none_found,
            enter ∙ ap finish (poll_timeout (check_for_msg mbx_id) hw.mbx.timeout hw none_found),
          )
        ]
