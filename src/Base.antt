-- ===== src/Base.antt =====
-- The names that all modules share: those of the libraries, passed on, and those of the children.
mod Numbers
mod Results
mod Texts
mod Maps
mod Decimal
mod Separators
mod Numerals
mod Order
mod Lists
mod Paging
mod Prefixes
pub use Numbers.*
pub use Results.*
pub use Texts.*
unfoldable pub use Maps.*
unfoldable pub use Decimal.*
pub use Separators.*
pub use Numerals.*
pub use Order.*
pub use Lists.*
unfoldable pub use Paging.*
pub use Prefixes.*
pub use Prim.Native.Nat.{ℕ, zero, suc, ◌+◌, ◌-◌, ◌*◌, ◌/◌, ◌%◌, ◌^◌, ◌≤◌, ◌<◌, min, max}
pub use Prim.Native.String.{String}
pub use mathlib.Core.Path.{◌≡◌, refl, sym, ap, ◌∙◌}
pub use mathlib.Core.Logic.{◌≢◌, ◌↔◌, ◌⊎◌, inl, inr}
pub use mathlib.Core.Bool.{Bool, true, false, not, ◌&&◌, ◌||◌}
pub use mathlib.Core.Option.{Option, none, some}
pub use mathlib.Core.List.{List, [], ◌∷◌, ◌++◌, map}
pub use native.Mathlib.Omega.{arith}
