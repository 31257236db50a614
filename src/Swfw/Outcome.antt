-- ===== src/Swfw/Outcome.antt =====
-- Who has a resource after `txgbe_acquire_swfw_sync` and `txgbe_release_swfw_sync`, src/txgbe_hw.c.
use txgbe.Base.{
  ℕ, ◌^◌, ◌<◌, ◌≡◌, ◌≢◌, ◌∙◌, refl, sym, ap, bit, bit_ext, bit-bit_and, bit-bit_or, bit_above,
  bit_or-lt, bit_and-lt, bit-le-one, bit-zero, bit_and, bit_or, ltb, Bool-cases, inl, inr, Option,
  none, arith,
}
use mathlib.Core.Path.{subst}
use txgbe.Hw.{Hw, Bus, Status, success, err_swfw_sync}
use txgbe.Reg.{shl32, failed_read_reg, not32}
use txgbe.Reg.Merge.{merged, bit-merged}
use txgbe.Swfw.Sync.{both_masks, acquire_end, acquire_swfw_sync, release_swfw_sync}
use txgbe.Swfw.Device.{Sem}
use txgbe.Swfw.Steps.{Held}
use txgbe.Swfw.Acquire.{attempts, acquire_loop_free, acquire_loop_tried, release_swfw_sync_value}

-- Adding free bits and clearing them gives the word back.
pub merged-bit_or :
    (g mask : ℕ)
    → g < 2 ^ 32
    → mask < 2 ^ 32
    → bit_and g mask ≡ 0
    → merged (bit_or g mask) mask 0 ≡ g
merged-bit_or g mask hg hm apart = bit_ext _ _ λ k. elim (Bool-cases (ltb k 32)) [
  | inl lo ↦
      let none : bit k (bit_and g mask) ≡ 0 = ap (bit k) apart ∙ bit-zero k in
      bit-merged k (bit_or g mask) mask 0 (ground arith)
      ∙ ground (
        arith,
        none,
        bit-bit_or k g mask,
        bit-bit_and k g mask,
        bit-zero k,
        bit-le-one k g,
        bit-le-one k mask,
      )
  | inr hi ↦
      let both = bit_or g mask in
      let kept : bit_and both (not32 mask) < 2 ^ 32 =
        bit_and-lt 32 both (not32 mask) (bit_or-lt 32 g mask hg hm) in
      let small : merged both mask 0 < 2 ^ 32 =
        bit_or-lt 32 (bit_and both (not32 mask)) (bit_and 0 mask) kept
          (bit_and-lt 32 0 mask (omega arith)) in
      bit_above 32 k (merged both mask 0) small (ground arith)
      ∙ sym (bit_above 32 k g hg (ground arith))
]

-- A resource whose bits are all clear has its software bits clear.
pub bit_and-both_masks : (g mask : ℕ) → bit_and g (both_masks mask) ≡ 0 → bit_and g mask ≡ 0
bit_and-both_masks g mask free = bit_ext _ _ λ k.
    let none : bit k (bit_and g (both_masks mask)) ≡ 0 = ap (bit k) free ∙ bit-zero k in
    ground (
      arith,
      none,
      bit-zero k,
      bit-bit_and k g mask,
      bit-bit_and k g (both_masks mask),
      bit-bit_or k (shl32 mask 16) mask,
      bit-le-one k g,
      bit-le-one k mask,
    )

module _ {D : Type 0} ⦃bus : Bus D⦄ {cell : ℕ → D → ℕ} (sem : Sem bus cell) where
  -- On a device that one driver uses, whose management is up and open and whose semaphores are
  -- clear, `txgbe_acquire_swfw_sync` of a resource that neither software nor firmware holds
  -- succeeds: it sets the software bits of the resource, keeps the other bits of the register, and
  -- leaves the semaphores clear again.
  pub acquire_swfw_sync-free :
      (mask g : ℕ) (hw : Hw D)
      → Held cell 0 0 g hw
      → bit_and g (both_masks mask) ≡ 0
      → let after = acquire_swfw_sync mask hw in
        (after.0 ≡ success) × Held cell 0 0 (bit_or g mask) after.1
  unfolding acquire_swfw_sync acquire_end
  acquire_swfw_sync-free mask g hw h free =
      let (hw1, e1, h1) = acquire_loop_free sem mask 199 0 hw h free in
      let all : acquire_swfw_sync mask hw ≡ (success, hw1) =
        ap (λ (t : (Option Status × ℕ) × Hw D). acquire_end mask t.0 t.1) e1 in
      subst (λ (t : Status × Hw D). (t.0 ≡ success) × Held cell 0 0 (bit_or g mask) t.1) (sym all)
        (refl, h1)

  -- On a device that one driver uses, whose management is up and open and whose semaphores are
  -- clear, `txgbe_release_swfw_sync` after `txgbe_acquire_swfw_sync` of a free resource gives
  -- the register of the resources and the semaphores back as they were, if that register has 32
  -- bits, the resource 16, and the register does not read as all ones in between.
  pub release_swfw_sync-acquire_swfw_sync :
      (mask g : ℕ) (hw : Hw D)
      → Held cell 0 0 g hw
      → bit_and g (both_masks mask) ≡ 0
      → mask < 2 ^ 16
      → g < 2 ^ 32
      → bit_or g mask ≢ failed_read_reg
      → Held cell 0 0 g (release_swfw_sync mask (acquire_swfw_sync mask hw).1).1
  release_swfw_sync-acquire_swfw_sync mask g hw h free hm hg live =
      let (ok, h1) = acquire_swfw_sync-free mask g hw h free in
      let back : merged (bit_or g mask) mask 0 ≡ g =
        merged-bit_or g mask hg (omega arith) (bit_and-both_masks g mask free) in
      subst (λ (x : ℕ). Held cell 0 0 x (release_swfw_sync mask (acquire_swfw_sync mask hw).1).1)
        back (release_swfw_sync_value sem mask (acquire_swfw_sync mask hw).1 h1 live)

  -- On a device that one driver uses, whose management is up and open and whose semaphores are
  -- clear, `txgbe_acquire_swfw_sync` of a resource that stays in use makes 200 attempts at it,
  -- releases the bits, the firmware's among them, by which the resource is held, and reports
  -- TXGBE_ERR_SWFW_SYNC; these bits are then clear and the semaphores too, if the register of the
  -- resources does not read as all ones. It does not try again, although the comment in the source
  -- announces a retry.
  pub acquire_swfw_sync-busy :
      (mask g : ℕ) (hw : Hw D)
      → Held cell 0 0 g hw
      → bit_and g (both_masks mask) ≢ 0
      → g ≢ failed_read_reg
      → let after = acquire_swfw_sync mask hw in
        let held = bit_and g (both_masks mask) in
        (after.0 ≡ err_swfw_sync)
        × (after.1 ≡ (release_swfw_sync held (attempts mask 200 hw)).1)
        × Held cell 0 0 (merged g held 0) after.1
  unfolding acquire_swfw_sync acquire_end
  acquire_swfw_sync-busy mask g hw h busy live =
      let held = bit_and g (both_masks mask) in
      let (hw1, e1, h1, tried) = acquire_loop_tried sem mask 199 hw h busy in
      let last : acquire_end mask (none, g) hw1 ≡ (err_swfw_sync, (release_swfw_sync held hw1).1) =
        ground (arith, busy) in
      let all : acquire_swfw_sync mask hw ≡ (err_swfw_sync, (release_swfw_sync held hw1).1) =
        ap (λ (t : (Option Status × ℕ) × Hw D). acquire_end mask t.0 t.1) e1 ∙ last in
      let end : Hw D = (release_swfw_sync held (attempts mask 200 hw)).1 in
      subst
        (λ (t : Status × Hw D).
          (t.0 ≡ err_swfw_sync) × (t.1 ≡ end) × Held cell 0 0 (merged g held 0) t.1)
        (sym all)
        (
          refl,
          ap (λ (t : Hw D). (release_swfw_sync held t).1) tried,
          release_swfw_sync_value sem held hw1 h1 live,
        )
