-- ===== src/Base/State.antt =====
-- Code that reads and updates a state and returns a value.
abbrev pub St : Type 0 → Type 0 → Type 0
St S A = S → A × S

module _ {S : Type 0} where
  abbrev pub pure : {A : Type 0} → A → St S A
  pure a s = (a, s)

  infixl 5 ◌>>=◌ ◌>>◌
  abbrev pub ◌>>=◌ : {A B : Type 0} → St S A → (A → St S B) → St S B
  ◌>>=◌ m f s = let (a, s') = m s in f a s'

  abbrev pub ◌>>◌ : {B : Type 0} → St S (Unit {0}) → St S B → St S B
  ◌>>◌ m k s = let (a, s') = m s in k s'

  abbrev pub get : St S S
  get s = (s, s)

  abbrev pub modify : (S → S) → St S (Unit {0})
  modify f s = (tt, f s)
