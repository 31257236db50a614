-- ===== src/Mbx/Posted.antt =====
-- What a successful posted write has done, src/txgbe_mbx.c: `txgbe_write_posted_mbx`.
use txgbe.Base.{
  ℕ, suc, ◌<◌, ◌≡◌, some, List, arith, refl, inl, inr, ◌∙◌, ap, sym, St, ◌==◌, ◌≢◌, Bool, true,
  false, pure, ◌>>=◌, if◌then◌else◌,
}
use native.Mathlib.Decide.{ℕ_discrete}
use txgbe.Hw.{Hw, Bus, Side, Status, success, err_mbx}
use txgbe.Mbx.Ops.{call_write, check_for_ack, poll_for_ack, write_posted_mbx}
use txgbe.Mbx.Stats.{if_ok}
use txgbe.Mbx.Poll.{
  check_at, after_checks, Status-cases, if_ok-success, if_ok-failure, first_success, poll_found,
  poll_timeout, poll_if_set-some, finish,
}

err_mbx≢success : err_mbx ≢ success
err_mbx≢success e = cc

module _ {D : Type 0} ⦃bus : Bus D⦄ (mbx_id : ℕ) {side : Side} (hw : Hw D)
    (set : hw.mbx.ops.check_for_ack ≡ some side) where
  -- An acknowledged poll saw one of its checks succeed.
  poll_for_ack_success :
      (poll_for_ack mbx_id hw).0 ≡ success
      → (k : ℕ) × (k < hw.mbx.timeout)
        × (check_at (check_for_ack mbx_id) k hw ≡ success)
        × ((poll_for_ack mbx_id hw).1 ≡ after_checks (check_for_ack mbx_id) (suc k) hw)
  unfolding poll_for_ack
  poll_for_ack_success h =
      let check = check_for_ack mbx_id in
      let enter =
        ap (λ (m : St (Hw D) ℕ). finish (m hw))
          (poll_if_set-some hw.mbx.ops.check_for_ack check hw.mbx.timeout set) in
      elim (first_success check hw.mbx.timeout hw) [
        | inl (k, p, before, found) ↦ (
          k,
          p,
          found,
          ap (λ (r : Status × Hw D). r.1)
              (enter ∙ ap finish (poll_found check k hw.mbx.timeout hw p before found)),
        )
        | inr none_found ↦ absurd (
            err_mbx≢success (
              sym (
                ap (λ (r : Status × Hw D). r.0)
                  (enter ∙ ap finish (poll_timeout check hw.mbx.timeout hw none_found)))
              ∙ h))
      ]

module _ {D : Type 0} ⦃bus : Bus D⦄ (msg : List ℕ) (size mbx_id : ℕ) (hw : Hw D) where
  abbrev pub written : Status × Hw D
  written = call_write hw.mbx.ops.write msg size mbx_id hw

  posted_branch :
      {b : Bool}
      → (hw.mbx.timeout == 0) ≡ b
      → write_posted_mbx msg size mbx_id hw
        ≡ (if b then (err_mbx, hw) else if_ok written.0 pure (poll_for_ack mbx_id) written.1)
  unfolding write_posted_mbx
  posted_branch {b} e = ap (λ (b : Bool). send_if b hw) e ∙ settle b
    where
      send_if : Bool → St (Hw D) Status
      send_if b =
          if b
          then pure err_mbx
          else (call_write hw.mbx.ops.write msg size mbx_id >>= λ err.
              if_ok err pure (poll_for_ack mbx_id))

      settle :
          (b : Bool)
          → send_if b hw
            ≡ (if b then (err_mbx, hw) else if_ok written.0 pure (poll_for_ack mbx_id) written.1)
      settle true = refl
      settle false = refl

  posted_sent :
      hw.mbx.timeout ≢ 0
      → written.0 ≡ success
      → write_posted_mbx msg size mbx_id hw ≡ poll_for_ack mbx_id written.1
  posted_sent ne ok =
      posted_branch {b = false} (ground arith)
      ∙ ap (λ (m : St (Hw D) Status). m written.1)
          (if_ok-success written.0 pure (poll_for_ack mbx_id) ok)

  posted_failed :
      hw.mbx.timeout ≢ 0 → written.0 ≢ success → (write_posted_mbx msg size mbx_id hw).0 ≢ success
  posted_failed ne bad h = bad (
      sym (
        ap (λ (r : Status × Hw D). r.0)
          (posted_branch {b = false} (ground arith)
            ∙ ap (λ (m : St (Hw D) Status). m written.1)
                (if_ok-failure written.0 pure (poll_for_ack mbx_id) bad)))
      ∙ h)

  posted_needs :
      (write_posted_mbx msg size mbx_id hw).0 ≡ success
      → (hw.mbx.timeout ≢ 0) × (written.0 ≡ success)
  posted_needs h = elim (ℕ_discrete hw.mbx.timeout 0) [
    | yes e ↦ absurd (
        err_mbx≢success
          (sym (ap (λ (r : Status × Hw D). r.0) (posted_branch {b = true} (ground arith))) ∙ h))
    | no ne ↦ elim (Status-cases written.0) [
      | inl ok ↦ (ne, ok)
      | inr bad ↦ absurd (posted_failed ne bad h)
    ]
  ]

  -- Where a check for acknowledgements is set after the write: a successful
  -- `txgbe_write_posted_mbx` had a timeout set, its write succeeded, and one of the
  -- first `timeout` checks for an acknowledgement after the write succeeded.
  pub write_posted_mbx_success :
      {side : Side}
      → written.1.mbx.ops.check_for_ack ≡ some side
      → (write_posted_mbx msg size mbx_id hw).0 ≡ success
      → (0 < hw.mbx.timeout)
        × (written.0 ≡ success)
        × ((k : ℕ) × (k < written.1.mbx.timeout)
            × (check_at (check_for_ack mbx_id) k written.1 ≡ success)
            × ((write_posted_mbx msg size mbx_id hw).1
                ≡ after_checks (check_for_ack mbx_id) (suc k) written.1))
  write_posted_mbx_success set h =
      let (ne, ok) = posted_needs h in
      let enter = posted_sent ne ok in
      let (k, p, found, end) =
        poll_for_ack_success mbx_id written.1 set
          (sym (ap (λ (r : Status × Hw D). r.0) enter) ∙ h) in
      (omega arith, ok, (k, p, found, ap (λ (r : Status × Hw D). r.1) enter ∙ end))
