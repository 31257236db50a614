-- ===== src/Mbx/Window.antt =====
-- The sixteen words of mailbox memory that the two ends share, and how the mailbox code leaves them.
use txgbe.Base.{
  ℕ, zero, suc, ◌+◌, ◌*◌, ◌≤◌, ◌<◌, ◌≡◌, ◌≢◌, refl, ap, ◌∙◌, sym, arith, true, List, get_or, set,
  length, get_or-set_self, get_or-set_ne, length-set,
}
use native.Mathlib.Decide.{ℕ_discrete}
use txgbe.Hw.{Hw, Bus}
use txgbe.Reg.{rd32, wr32}
use txgbe.Reg.Frame.{rd32-mapped, wr32-mapped}
use txgbe.Mbx.Stats.{copy_out, copy_in}

-- Through `bus`, words 0 to 15 of the shared memory are at `mem`: a load gives the word, a store
-- sets it, and no other access changes it.
pub record Window {D : Type 0} (bus : Bus D) (mem : ℕ) (word : ℕ → D → ℕ) : Type 0 where
  pub load : (j : ℕ) (d : D) → j < 16 → (bus.readl (mem + j * 4) d).0 ≡ word j d
  pub read_keeps : (j a : ℕ) (d : D) → word j (bus.readl a d).1 ≡ word j d
  pub store : (j v : ℕ) (d : D) → j < 16 → word j (bus.writel (mem + j * 4) v d) ≡ v
  pub write_keeps :
      (j a v : ℕ) (d : D) → j < 16 → a ≢ mem + j * 4 → word j (bus.writel a v d) ≡ word j d

module _ {D : Type 0} ⦃bus : Bus D⦄ {mem : ℕ} {word : ℕ → D → ℕ} (w : Window bus mem word) where
  pub rd32-word : (j a : ℕ) (hw : Hw D) → word j (rd32 a hw).1.dev ≡ word j hw.dev
  unfolding rd32
  rd32-word j a hw = ground (arith, w.read_keeps j a hw.dev)

  pub rd32_load :
      (j : ℕ) (hw : Hw D) → hw.mapped ≡ true → j < 16 → (rd32 (mem + j * 4) hw).0 ≡ word j hw.dev
  unfolding rd32
  rd32_load j hw m h = ground (arith, w.load j hw.dev h)

  pub wr32_keeps :
      (j a v : ℕ) (hw : Hw D)
      → j < 16
      → a ≢ mem + j * 4
      → word j (wr32 a v hw).1.dev ≡ word j hw.dev
  unfolding wr32
  wr32_keeps j a v hw h ne = ground (arith, w.write_keeps j a v hw.dev h ne)

  pub wr32_store :
      (j a v : ℕ) (hw : Hw D)
      → hw.mapped ≡ true
      → j < 16
      → a ≡ mem + j * 4
      → word j (wr32 a v hw).1.dev ≡ v
  unfolding wr32
  wr32_store j a v hw m h e =
      ground (arith, ap (λ (b : ℕ). word j (bus.writel b v hw.dev)) e, w.store j v hw.dev h)

  -- The loop that copies a message out leaves the words before its start.
  copy_out-below :
      (msg : List ℕ) (i n j : ℕ) (hw : Hw D)
      → j < i
      → j < 16
      → word j (copy_out mem msg i n hw).1.dev ≡ word j hw.dev
  unfolding copy_out
  copy_out-below msg i zero j hw below fits = refl
  copy_out-below msg i (suc n) j hw below fits =
      copy_out-below msg (i + 1) n j (wr32 (mem + i * 4) (get_or msg i 0) hw).1 (omega arith) fits
      ∙ wr32_keeps j (mem + i * 4) (get_or msg i 0) hw fits (omega arith)

  -- It stores each word of the message in its place.
  pub copy_out-word :
      (msg : List ℕ) (i n j : ℕ) (hw : Hw D)
      → hw.mapped ≡ true
      → j < 16
      → i ≤ j
      → j < i + n
      → word j (copy_out mem msg i n hw).1.dev ≡ get_or msg j 0
  unfolding copy_out
  copy_out-word msg i zero j hw m fits from to = absurd (omega arith)
  copy_out-word msg i (suc n) j hw m fits from to =
      let hw' = (wr32 (mem + i * 4) (get_or msg i 0) hw).1 in
      elim (ℕ_discrete i j) [
        | yes e ↦
            copy_out-below msg (i + 1) n j hw' (omega arith) fits
            ∙ wr32_store j (mem + i * 4) (get_or msg i 0) hw m fits (omega arith)
            ∙ ap (λ (t : ℕ). get_or msg t 0) e
        | no ne ↦
            copy_out-word msg (i + 1) n j hw' (wr32-mapped (mem + i * 4) (get_or msg i 0) hw ∙ m)
              fits (omega arith) (omega arith)
      ]

  -- The loop that copies a message in keeps the entries of the buffer before its start.
  copy_in-below :
      (buf : List ℕ) (i n j : ℕ) (hw : Hw D)
      → j < i
      → get_or (copy_in mem buf i n hw).0 j 0 ≡ get_or buf j 0
  unfolding copy_in
  copy_in-below buf i zero j hw below = refl
  copy_in-below buf i (suc n) j hw below =
      let v = (rd32 (mem + i * 4) hw).0 in
      copy_in-below (set buf i v) (i + 1) n j (rd32 (mem + i * 4) hw).1 (omega arith)
      ∙ get_or-set_ne buf i j v 0 (omega arith)

  -- It fills each entry with the word of the memory.
  pub copy_in-word :
      (buf : List ℕ) (i n j : ℕ) (hw : Hw D)
      → hw.mapped ≡ true
      → j < 16
      → j < length buf
      → i ≤ j
      → j < i + n
      → get_or (copy_in mem buf i n hw).0 j 0 ≡ word j hw.dev
  unfolding copy_in
  copy_in-word buf i zero j hw m fits room from to = absurd (omega arith)
  copy_in-word buf i (suc n) j hw m fits room from to =
      let v = (rd32 (mem + i * 4) hw).0 in
      let hw' = (rd32 (mem + i * 4) hw).1 in
      elim (ℕ_discrete i j) [
        | yes e ↦
            copy_in-below (set buf i v) (i + 1) n j hw' (omega arith)
            ∙ ap (λ (t : ℕ). get_or (set buf i v) t 0) (sym e)
            ∙ get_or-set_self buf i v 0 (omega arith)
            ∙ ap (λ (t : ℕ). (rd32 (mem + t * 4) hw).0) e
            ∙ rd32_load j hw m fits
        | no ne ↦
            copy_in-word (set buf i v) (i + 1) n j hw' (rd32-mapped (mem + i * 4) hw ∙ m) fits
              (omega (arith, length-set buf i v)) (omega arith) (omega arith)
            ∙ rd32-word j (mem + i * 4) hw
      ]
