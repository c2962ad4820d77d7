-- ===== src/Prelude.antt =====
-- Names shared by all modules: the libraries', passed on, and those of the children below.
mod Tests
mod Lists
mod Texts
mod Maps
mod Sorting
mod Naming
mod Words
mod Breaks
mod Clock
pub mod Ints
mod Numbers
pub use Tests.*
pub use Lists.*
unfoldable pub use Numbers.*
unfoldable pub use Texts.*
unfoldable pub use Maps.*
unfoldable pub use Sorting.*
unfoldable pub use Words.*
pub use Naming.*
pub use Breaks.*
pub use Clock.*
pub use Prim.Native.Nat.{ℕ, zero, suc, ◌+◌, ◌-◌, ◌*◌, ◌/◌, ◌%◌, ◌^◌, ◌≤◌, ◌<◌, min, max}
pub use mathlib.Core.Path.{◌≡◌, refl, sym, ap, ◌∙◌, subst}
pub use mathlib.Core.Logic.{◌≢◌, ◌↔◌, ◌⊎◌, inl, inr}
pub use mathlib.Core.Bool.{Bool, true, false, not, ◌&&◌, ◌||◌}
pub use mathlib.Core.Option.{Option, none, some}
pub use mathlib.Core.List.{List, [], ◌∷◌, ◌++◌, map}
pub use native.Mathlib.Omega.{arith}
