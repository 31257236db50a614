-- ===== src/Reg/Frame.antt =====
-- Register accesses change the device and no other field of `struct txgbe_hw`.
use txgbe.Base.{ℕ, ◌≡◌, ◌∙◌, ap, arith}
use txgbe.Hw.{Hw, Bus}
use txgbe.Reg.{rd32, wr32, wr32m}

module _ {D : Type 0} ⦃bus : Bus D⦄ (a : ℕ) (hw : Hw D) where
  pub rd32-mbx : (rd32 a hw).1.mbx ≡ hw.mbx
  unfolding rd32
  rd32-mbx = ground arith

  pub rd32-mapped : (rd32 a hw).1.mapped ≡ hw.mapped
  unfolding rd32
  rd32-mapped = ground arith

  pub rd32-mac : (rd32 a hw).1.mac ≡ hw.mac
  unfolding rd32
  rd32-mac = ground arith

  pub rd32-fc : (rd32 a hw).1.fc ≡ hw.fc
  unfolding rd32
  rd32-fc = ground arith

module _ {D : Type 0} ⦃bus : Bus D⦄ (a v : ℕ) (hw : Hw D) where
  pub wr32-mbx : (wr32 a v hw).1.mbx ≡ hw.mbx
  unfolding wr32
  wr32-mbx = ground arith

  pub wr32-mapped : (wr32 a v hw).1.mapped ≡ hw.mapped
  unfolding wr32
  wr32-mapped = ground arith

  pub wr32-mac : (wr32 a v hw).1.mac ≡ hw.mac
  unfolding wr32
  wr32-mac = ground arith

  pub wr32-fc : (wr32 a v hw).1.fc ≡ hw.fc
  unfolding wr32
  wr32-fc = ground arith

-- The second hardware structure differs from the first in its device alone.
abbrev pub Same : {D : Type 0} → Hw D → Hw D → Type 0
Same hw after = after ≡ record hw { dev = after.dev }

pub Same-trans : {D : Type 0} (a b c : Hw D) → Same a b → Same b c → Same a c
Same-trans {D} a b c p q = q ∙ ap (λ (t : Hw D). record t { dev = c.dev }) p

module _ {D : Type 0} ⦃bus : Bus D⦄ (a : ℕ) (hw : Hw D) where
  pub rd32-Same : Same hw (rd32 a hw).1
  unfolding rd32
  rd32-Same = ground arith

  pub wr32-Same : (v : ℕ) → Same hw (wr32 a v hw).1
  unfolding wr32
  wr32-Same v = ground arith

  pub wr32m-Same : (mask field : ℕ) → Same hw (wr32m a mask field hw).1
  unfolding wr32m
  wr32m-Same mask field = ground arith
