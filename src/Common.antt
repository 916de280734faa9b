-- ===== src/Common.antt =====
-- The names that the other modules share: those of the libraries, passed on, and those of the
-- children below: tests on numbers, lists, texts, times and keyed maps.
mod Tests
mod Lists
mod Strings
mod Clock
mod Keyed
mod Decimal
mod Sort
mod Group
mod First
pub use Tests.*
pub use Lists.*
unfoldable pub use Strings.*
pub use Clock.*
unfoldable pub use Keyed.*
unfoldable pub use Decimal.*
unfoldable pub use Sort.*
unfoldable pub use Group.*
pub use First.*
pub use Prim.Native.Nat.{ℕ, zero, suc, ◌+◌, ◌-◌, ◌*◌, ◌/◌, ◌%◌, ◌^◌, ◌≤◌, ◌<◌}
pub use mathlib.Core.Path.{◌≡◌, refl, sym, ap, ◌∙◌}
pub use mathlib.Core.Logic.{◌≢◌, ◌↔◌, ◌⊎◌, inl, inr}
pub use mathlib.Core.Bool.{Bool, true, false, not, ◌&&◌, ◌||◌}
pub use mathlib.Core.Option.{Option, none, some}
pub use mathlib.Core.List.{List, [], ◌∷◌, ◌++◌, map, reverse}
pub use native.Mathlib.Omega.{arith}
