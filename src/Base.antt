-- ===== src/Base.antt =====
-- Names shared by every module: the libraries' names passed on, tests on native numbers, lists
-- measured by native numbers, signed integers, and the decimal and bit helpers of the Go runtime
-- that the program uses.
mod Tests
mod Lists
pub mod Int
pub mod Files
pub mod Order
pub mod Xor
pub mod Decimal
pub mod Space
pub mod Utf8
pub mod Base64
pub use Tests.*
unfoldable pub use Lists.*
pub use Prim.Native.Nat.{ℕ, zero, suc, ◌+◌, ◌-◌, ◌*◌, ◌/◌, ◌%◌, ◌^◌, ◌≤◌, ◌<◌, min, max}
pub use mathlib.Core.Path.{◌≡◌, refl, sym, ap, ap₂, subst, ◌∙◌}
pub use mathlib.Core.Logic.{◌≢◌, ◌↔◌, ◌⊎◌, inl, inr}
pub use mathlib.Core.Bool.{Bool, true, false, not, ◌&&◌, ◌||◌}
pub use mathlib.Core.Option.{Option, none, some}
pub use mathlib.Core.List.{List, [], ◌∷◌, ◌++◌, map, map-append, append-nil, append_assoc}
pub use native.Mathlib.Omega.{arith}
