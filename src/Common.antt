-- ===== src/Common.antt =====
-- What the other modules share: the libraries' names, passed on, and the tests, lists, signed
-- integers, C strings and array loops of the children.
mod Tests
mod Lists
mod Ints
mod Loops
mod Members
mod Strings
pub use Tests.*
pub use Lists.*
unfoldable pub use Ints.*
unfoldable pub use Loops.*
unfoldable pub use Strings.*
pub use Members.*
pub use Prim.Native.Nat.{ℕ, zero, suc, ◌+◌, ◌-◌, ◌*◌, ◌/◌, ◌%◌, ◌^◌, ◌≤◌, ◌<◌, min}
pub use mathlib.Core.Path.{◌≡◌, refl, sym, ap, ◌∙◌, subst}
pub use mathlib.Core.Logic.{◌≢◌, ◌↔◌, ◌⊎◌, inl, inr}
pub use mathlib.Core.Bool.{Bool, true, false, not, ◌&&◌, ◌||◌}
pub use mathlib.Core.Option.{Option, none, some}
pub use mathlib.Core.List.{List, [], ◌∷◌, ◌++◌, append-nil, map}
pub use native.Mathlib.Omega.{arith}
