-- ===== src/Pcierr/Votes.antt =====
-- The votes of a bus: src/txgbe_pcierr.c `merge_result` over the devices.
use txgbe.Base.{
  ℕ, max, ◌≤◌, ◌≡◌, ◌∙◌, refl, sym, ap, List, [], ◌∷◌, St, pure, Option, none, some, Option-cases,
  inl, inr, if◌then◌else◌, arith,
}
use txgbe.Pcierr.Recovery.{
  ErsResult, ers_none, can_recover, need_reset, disconnect, recovered, no_aer_driver, merge_orig,
  merge_result, PciDev, report_error_detected, report_vote, report_mmio_enabled, report_slot_reset,
  walk_bus,
}

-- How bad a vote is.
abbrev pub severity : ErsResult → ℕ
severity ers_none = 0
severity can_recover = 1
severity recovered = 1
severity disconnect = 2
severity need_reset = 3
severity no_aer_driver = 4

-- The worst of the votes.
abbrev pub worst : List ErsResult → ℕ
worst [] = 0
worst (v ∷ votes) = max (severity v) (worst votes)

-- The merged vote is the worse of the two, once some device could have recovered.
merge_result-severity :
    (orig new : ErsResult)
    → 1 ≤ severity orig
    → severity (merge_result orig new) ≡ max (severity orig) (severity new)
unfolding merge_result merge_orig
merge_result-severity ers_none new h = absurd (omega arith)
merge_result-severity can_recover ers_none h = refl
merge_result-severity can_recover can_recover h = refl
merge_result-severity can_recover need_reset h = refl
merge_result-severity can_recover disconnect h = refl
merge_result-severity can_recover recovered h = refl
merge_result-severity can_recover no_aer_driver h = refl
merge_result-severity need_reset ers_none h = refl
merge_result-severity need_reset can_recover h = refl
merge_result-severity need_reset need_reset h = refl
merge_result-severity need_reset disconnect h = refl
merge_result-severity need_reset recovered h = refl
merge_result-severity need_reset no_aer_driver h = refl
merge_result-severity disconnect ers_none h = refl
merge_result-severity disconnect can_recover h = refl
merge_result-severity disconnect need_reset h = refl
merge_result-severity disconnect disconnect h = refl
merge_result-severity disconnect recovered h = refl
merge_result-severity disconnect no_aer_driver h = refl
merge_result-severity recovered ers_none h = refl
merge_result-severity recovered can_recover h = refl
merge_result-severity recovered need_reset h = refl
merge_result-severity recovered disconnect h = refl
merge_result-severity recovered recovered h = refl
merge_result-severity recovered no_aer_driver h = refl
merge_result-severity no_aer_driver ers_none h = refl
merge_result-severity no_aer_driver can_recover h = refl
merge_result-severity no_aer_driver need_reset h = refl
merge_result-severity no_aer_driver disconnect h = refl
merge_result-severity no_aer_driver recovered h = refl
merge_result-severity no_aer_driver no_aer_driver h = refl

merge_nothing : (result : ErsResult) → merge_result result ers_none ≡ result
unfolding merge_result
merge_nothing ers_none = refl
merge_nothing can_recover = refl
merge_nothing need_reset = refl
merge_nothing disconnect = refl
merge_nothing recovered = refl
merge_nothing no_aer_driver = refl

module _ {W : Type 0} where
  -- What a device votes when an error is announced: its driver's callback, else no driver, which is
  -- no vote of a bridge.
  abbrev pub error_vote : PciDev W → St W ErsResult
  error_vote dev = elim (dev.error_detected) as (λ _. St W ErsResult) [
    | none ↦ pure (if dev.bridge then ers_none else no_aer_driver)
    | some callback ↦ callback
  ]

  -- What a callback votes, which is nothing where the driver has none.
  abbrev pub vote_of : Option (St W ErsResult) → St W ErsResult
  vote_of vote = elim vote as (λ _. St W ErsResult) [
    | none ↦ pure ers_none
    | some callback ↦ callback
  ]

  -- The votes of the devices one after another, each in the world that the one before leaves.
  abbrev pub ballots : (PciDev W → St W ErsResult) → List (PciDev W) → W → List ErsResult
  ballots vote [] w = []
  ballots vote (dev ∷ devs) w = (vote dev w).0 ∷ ballots vote devs (vote dev w).1

  -- A report merges the vote of its device, and changes the world as the vote does.
  abbrev Reports : (PciDev W → ErsResult → St W ErsResult) → (PciDev W → St W ErsResult) → Type 0
  Reports report vote =
      (dev : PciDev W) (result : ErsResult) (w : W)
      → report dev result w ≡ (merge_result result (vote dev w).0, (vote dev w).1)

  error_detected-Reports : Reports report_error_detected error_vote
  unfolding report_error_detected
  error_detected-Reports dev result w = elim (Option-cases (dev.error_detected)) [
    | inl e ↦ ground (arith, e)
    | inr (c, e) ↦ ground (arith, e)
  ]

  report_vote_value :
      (vote : Option (St W ErsResult)) (result : ErsResult) (w : W)
      → report_vote vote result w ≡ (merge_result result (vote_of vote w).0, (vote_of vote w).1)
  unfolding report_vote
  report_vote_value none result w = ap (λ (r : ErsResult). (r, w)) (sym (merge_nothing result))
  report_vote_value (some callback) result w = refl

  worst_of_walk :
      (report : PciDev W → ErsResult → St W ErsResult) (vote : PciDev W → St W ErsResult)
      → Reports report vote
      → (devs : List (PciDev W)) (start : ErsResult) (w : W) → 1 ≤ severity start
      → severity (walk_bus report devs start w).0
        ≡ max (severity start) (worst (ballots vote devs w))
  unfolding walk_bus
  worst_of_walk report vote reports [] start w h = omega arith
  worst_of_walk report vote reports (dev ∷ devs) start w h =
      let cast = vote dev w in
      let next = merge_result start cast.0 in
      let step = merge_result-severity start cast.0 h in
      ap (λ (t : ErsResult × W). severity (walk_bus report devs t.0 t.1).0) (reports dev start w)
      ∙ omega
          (arith, step, worst_of_walk report vote reports devs next cast.1 (omega (arith, step)))

  -- On any bus and in any world, each of the three broadcasts that ask for votes, from a status that is
  -- not PCI_ERS_RESULT_NONE, ends in a status as bad as the worst among that status and the votes,
  -- each taken in the world that the devices before it leave: of an error that is detected, of
  -- access to the registers that is back, and of a slot that was reset. A driver without the first
  -- callback votes that it has none, except of a bridge; one without another callback does not vote.
  pub walk_bus-worst :
      (devs : List (PciDev W)) (start : ErsResult) (w : W)
      → 1 ≤ severity start
      → (severity (walk_bus report_error_detected devs start w).0
          ≡ max (severity start) (worst (ballots error_vote devs w)))
        × (severity (walk_bus report_mmio_enabled devs start w).0
            ≡ max (severity start) (worst (ballots (λ dev. vote_of (dev.mmio_enabled)) devs w)))
        × (severity (walk_bus report_slot_reset devs start w).0
            ≡ max (severity start) (worst (ballots (λ dev. vote_of (dev.slot_reset)) devs w)))
  unfolding report_mmio_enabled report_slot_reset
  walk_bus-worst devs start w h = (
    worst_of_walk report_error_detected error_vote error_detected-Reports devs start w h,
    worst_of_walk report_mmio_enabled (λ dev. vote_of (dev.mmio_enabled))
        (λ dev. report_vote_value (dev.mmio_enabled)) devs start w h,
    worst_of_walk report_slot_reset (λ dev. vote_of (dev.slot_reset))
        (λ dev. report_vote_value (dev.slot_reset)) devs start w h,
  )
