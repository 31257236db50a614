-- ===== src/Hic/Checksum.antt =====
-- What the checksum of src/txgbe_hw.c `txgbe_calc_eeprom_checksum` means.
use txgbe.Base.{
  ℕ, zero, suc, ◌+◌, ◌%◌, ◌^◌, ◌<◌, ◌≡◌, ◌∙◌, refl, ap, ◌==◌, if◌then◌else◌, List, [], ◌∷◌, length,
  get_or, ◌↔◌, arith,
}
use native.Mathlib.Decide.{ℕ_discrete}
use txgbe.Hic.Eeprom.{eeprom_sum}
use txgbe.Hic.Image.{sum_words, image_checksum}

-- The sum of all words.
abbrev pub total : List ℕ → ℕ
total [] = 0
total (w ∷ words) = w + total words

-- The sum of the words without word `skip`, from word `i` on.
abbrev others : ℕ → ℕ → List ℕ → ℕ
others i skip [] = 0
others i skip (w ∷ words) = (if i == skip then 0 else w) + others (i + 1) skip words

sum_words-others :
    (i skip acc : ℕ) (words : List ℕ)
    → acc < 2 ^ 16
    → sum_words i skip acc words ≡ (acc + others i skip words) % 2 ^ 16
unfolding sum_words
sum_words-others i skip acc [] h = omega arith
sum_words-others i skip acc (w ∷ words) h = elim (ℕ_discrete i skip) [
  | yes e ↦ ground (arith, e, sum_words-others (i + 1) skip acc words h)
  | no ne ↦
      ground (arith, ne, sum_words-others (i + 1) skip ((acc + w) % 2 ^ 16) words (omega arith))
]

-- Past the word that is left out, all words count.
others-past : (i skip : ℕ) (words : List ℕ) → skip < i → others i skip words ≡ total words
others-past i skip [] h = refl
others-past i skip (w ∷ words) h = ground (arith, others-past (i + 1) skip words (omega arith))

others-total :
    (i k : ℕ) (words : List ℕ)
    → k < length words
    → others i (i + k) words + get_or words k 0 ≡ total words
others-total i k [] h = absurd (omega arith)
others-total i zero (w ∷ words) h = ground (arith, others-past (i + 1) (i + 0) words (omega arith))
others-total i (suc k) (w ∷ words) h =
    let e : i + suc k ≡ i + 1 + k = omega arith in
    let rest : others (i + 1) (i + suc k) words + get_or words k 0 ≡ total words =
      ap (λ (j : ℕ). others (i + 1) j words + get_or words k 0) e
      ∙ others-total (i + 1) k words (omega arith) in
    ground (arith, rest)

-- The checksum is right exactly for the images whose words add up: a u16 at the place that
-- `txgbe_calc_eeprom_checksum` leaves out, within the image, is the checksum that it calculates if
-- and only if the sum of all words of the image, as a u16, is TXGBE_EEPROM_SUM.
pub image_checksum_lem :
    (skip : ℕ) (words : List ℕ)
    → skip < length words
    → get_or words skip 0 < 2 ^ 16
    → (get_or words skip 0 ≡ image_checksum skip words) ↔ (total words % 2 ^ 16 ≡ eeprom_sum)
unfolding image_checksum
image_checksum_lem skip words inside small =
    let s = sum_words-others 0 skip 0 words (omega arith) in
    let e0 : skip ≡ 0 + skip = omega arith in
    let t : others 0 skip words + get_or words skip 0 ≡ total words =
      ap (λ (j : ℕ). others 0 j words + get_or words skip 0) e0
      ∙ others-total 0 skip words inside in
    (λ e. omega (arith, s, t, e), λ e. omega (arith, s, t, e))
