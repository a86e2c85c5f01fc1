-- ===== src/Base.antt =====
-- What every component shares: the library's names, Boolean tests, C arrays, machine words and
-- the laws of the bit operations. Models no file of the repository by itself.
mod Tests
mod Lists
mod Word
mod Text
mod Outcome
pub mod Bits
pub mod Order
pub mod Ram
pub use Tests.*
unfoldable pub use Lists.*
pub use Word.*
pub use Text.*
pub use Outcome.*
pub use Prim.Native.Nat.{ℕ, zero, suc, ◌+◌, ◌-◌, ◌*◌, ◌/◌, ◌%◌, ◌^◌, ◌≤◌, ◌<◌, min, max}
pub use Prim.Native.Nat.{bit_and, bit_or, bit_xor}
pub use mathlib.Core.Path.{◌≡◌, refl, sym, ap, ap₂, subst, subst₂, ◌∙◌}
pub use mathlib.Core.Logic.{◌≢◌, ◌↔◌, ◌⊎◌, inl, inr}
pub use mathlib.Core.Bool.{Bool, true, false, not, ◌&&◌, ◌||◌}
pub use mathlib.Core.Option.{Option, none, some}
pub use mathlib.Core.List.{List, [], ◌∷◌, ◌++◌, map}
pub use native.Mathlib.Omega.{arith}
