-- ===== src/Base.antt =====
-- The names that the other modules share: those of the libraries, passed on, and those of the
-- children, with the laws of lists, orders and predicates that several parts of the program use.
mod Tests
mod Lists
mod Strings
mod Maps
mod Slices
mod Options
mod Integers
pub mod Order
pub use Tests.*
pub use Lists.*
pub use Slices.*
pub use Strings.*
pub use Maps.*
pub use Options.*
unfoldable pub use Integers.*
pub use Prim.Native.Nat.{ℕ, zero, suc, ◌+◌, ◌-◌, ◌*◌, ◌/◌, ◌%◌, ◌^◌, ◌≤◌, ◌<◌, min, max}
pub use mathlib.Core.Path.{◌≡◌, refl, sym, ap, ◌∙◌}
pub use mathlib.Core.Logic.{◌≢◌, ◌↔◌, ◌⊎◌, inl, inr}
pub use mathlib.Core.Bool.{Bool, true, false, not, ◌&&◌, ◌||◌}
pub use mathlib.Core.Option.{Option, none, some}
pub use mathlib.Core.List.{List, [], ◌∷◌, ◌++◌, map, append-nil, append_assoc}
pub use native.Mathlib.Omega.{arith}
unfoldable pub use native.Mathlib.Decide.{dec_lt, dec_le, ℕ_discrete}
