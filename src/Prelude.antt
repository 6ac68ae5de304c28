-- ===== src/Prelude.antt =====
-- The names that every module shares: the libraries' (passed on), Boolean tests on numbers, lists
-- measured by native numbers, signed integers and Go's string functions.
mod Tests
mod Lists
mod Tables
mod Int
mod GoStrings
mod Bytes
pub use Tests.*
unfoldable pub use Lists.*
pub use Tables.*
pub use Int.*
unfoldable pub use GoStrings.*
unfoldable pub use Bytes.*
pub use Prim.Native.Nat.{ℕ, zero, suc, ◌+◌, ◌-◌, ◌*◌, ◌/◌, ◌%◌, ◌^◌, ◌≤◌, ◌<◌}
pub use Prim.Native.String.{String}
pub use mathlib.Core.Path.{◌≡◌, refl, sym, ap, ◌∙◌, subst}
pub use mathlib.Core.Logic.{◌≢◌, ◌↔◌, ◌⊎◌, inl, inr}
pub use mathlib.Core.Bool.{Bool, true, false, not, ◌&&◌, ◌||◌}
pub use mathlib.Core.Option.{Option, none, some}
pub use mathlib.Core.List.{List, [], ◌∷◌, ◌++◌, map}
pub use native.Mathlib.Omega.{arith}
