-- ===== src/Shared.antt =====
-- The names and the small helpers that every part shares: the libraries' names passed on, tests,
-- results of fallible code, and lists over the native numbers.
mod Tests
mod Results
mod Lists
pub mod Order
pub mod Effects
unfoldable pub use Tests.*
unfoldable pub use Results.*
unfoldable pub use Lists.*
pub use Prim.Native.Nat.{ℕ, zero, suc, ◌+◌, ◌-◌, ◌*◌, ◌/◌, ◌%◌, ◌≤◌, ◌<◌, compare, Ordering}
pub use Prim.Native.Char.{Char, code}
pub use Prim.Native.String.{String}
pub use mathlib.Core.Path.{◌≡◌, refl, sym, ap, subst, ◌∙◌}
pub use mathlib.Core.Logic.{◌≢◌, ◌↔◌, ◌⊎◌, inl, inr}
pub use mathlib.Core.Bool.{Bool, true, false, not, ◌&&◌, ◌||◌}
pub use mathlib.Core.Option.{Option, none, some}
pub use mathlib.Core.List.{List, [], ◌∷◌, ◌++◌}
pub use native.Mathlib.Omega.{arith}
