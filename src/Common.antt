-- ===== src/Common.antt =====
-- What every component shares: the library's names passed on, Boolean tests, lists over the native
-- numbers, keys with a Boolean equality, Python's dict and set, signed integers and text.
mod Tests
mod Lists
mod Keys
pub mod Dict
pub mod PySet
pub mod Tally
mod Int
pub mod Decimal
mod Strings
pub mod Trim
pub use Tests.*
pub use Lists.*
pub use Keys.*
pub use Int.*
unfoldable pub use Strings.*
pub use Prim.Native.Nat.{ℕ, zero, suc, ◌+◌, ◌-◌, ◌*◌, ◌/◌, ◌%◌, ◌≤◌, ◌<◌, min, max}
pub use mathlib.Core.Path.{◌≡◌, refl, sym, ap, ◌∙◌, subst}
pub use mathlib.Core.Logic.{◌≢◌, ◌↔◌, ◌⊎◌, inl, inr}
pub use mathlib.Core.Bool.{Bool, true, false, not, ◌&&◌, ◌||◌}
pub use mathlib.Core.Option.{Option, none, some}
pub use mathlib.Core.List.{List, [], ◌∷◌, ◌++◌, map, append-nil, append_assoc, reverse}
pub use native.Mathlib.Omega.{arith}
