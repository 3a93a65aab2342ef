-- ===== src/Base.antt =====
-- The names that every module shares: the libraries', passed on, and those of the children below.
mod Tests
mod Classes
mod Lists
mod Results
mod Slices
mod Maps
mod Ints
mod Text
mod Sorting
mod Order
mod Int64
pub use Tests.*
pub use Classes.*
pub use Lists.*
pub use Results.*
pub use Slices.*
pub use Maps.*
unfoldable pub use Maps.{lookup, insert, delete, update_all}
pub use Ints.*
unfoldable pub use Text.{trim_space, has_prefix, contains, str_ltb}
pub use Text.{trim_space-trim_space, codes}
pub use Sorting.*
unfoldable pub use Sorting.{sort}
pub use Order.*
pub use Int64.*
unfoldable pub use Order.{earlier}
pub use Prim.Native.Nat.{ℕ, zero, suc, ◌+◌, ◌-◌, ◌*◌, ◌%◌, ◌^◌, ◌≤◌, ◌<◌}
pub use Prim.Native.String.{String}
pub use mathlib.Core.Path.{◌≡◌, refl, sym, ap, ◌∙◌}
pub use mathlib.Core.Logic.{◌≢◌, ◌↔◌, ◌⊎◌, inl, inr}
pub use mathlib.Core.Bool.{Bool, true, false, not, ◌&&◌, ◌||◌}
pub use mathlib.Core.Option.{Option, none, some}
pub use mathlib.Core.List.{List, [], ◌∷◌, ◌++◌, map}
pub use native.Mathlib.Omega.{arith}
pub use text.Mathlib.TextEquality.{eq_iff}
