-- ===== src/Base.antt =====
-- What every module shares: the library's names, C arrays, tests on numbers, bits and the state
-- monad.
mod Tests
mod Lists
mod Bits
mod Shift
mod Pack
mod State
mod Loop
pub use Tests.*
pub use Lists.*
pub use Shift.*
pub use Pack.*
unfoldable pub use Bits.*
pub use State.*
unfoldable pub use Loop.*
pub use Prim.Native.Nat.{ℕ, zero, suc, ◌+◌, ◌-◌, ◌*◌, ◌/◌, ◌%◌, ◌^◌, ◌≤◌, ◌<◌, min, max}
pub use Prim.Native.Nat.{bit_and, bit_or, bit_xor}
pub use mathlib.Core.Path.{◌≡◌, refl, sym, ap, ◌∙◌}
pub use mathlib.Core.Logic.{◌≢◌, ◌↔◌, ◌⊎◌, inl, inr}
pub use mathlib.Core.Bool.{Bool, true, false, not, ◌&&◌, ◌||◌}
pub use mathlib.Core.Option.{Option, none, some}
pub use mathlib.Core.List.{List, [], ◌∷◌, ◌++◌}
pub use native.Mathlib.Omega.{arith}
